-- ===== src/Base/Lists.antt =====
-- Lists measured and cut by native numbers, predicates on all items, and the order of a Go map.
use Prim.Native.Nat.{ℕ, zero, suc, ◌+◌}
use mathlib.Core.Path.{◌≡◌, refl, ap, subst}
use mathlib.Core.Bool.{Bool, true, false}
use mathlib.Core.List.{List, [], ◌∷◌, ◌++◌}
use mathlib.Core.Option.{Option, none, some}
use mathlib.Core.Logic.{inl, inr}
use native.Mathlib.Omega.{arith}
use kubernetes_switchcloud.Base.Tests.{if◌then◌else◌, Bool-cases}

module _ {ℓ} {A : Type ℓ} where
  abbrev pub length : List A → ℕ
  length [] = 0
  length (x ∷ xs) = suc (length xs)

  abbrev pub take : ℕ → List A → List A
  take zero xs = []
  take (suc n) [] = []
  take (suc n) (x ∷ xs) = x ∷ take n xs

  abbrev pub drop : ℕ → List A → List A
  drop zero xs = xs
  drop (suc n) [] = []
  drop (suc n) (x ∷ xs) = drop n xs

  pub length-append : (xs ys : List A) → length (xs ++ ys) ≡ length xs + length ys
  length-append [] ys = omega arith
  length-append (x ∷ xs) ys = omega (arith, length-append xs ys)

  pub take-append-drop : (n : ℕ) (xs : List A) → take n xs ++ drop n xs ≡ xs
  take-append-drop zero xs = refl
  take-append-drop (suc n) [] = refl
  take-append-drop (suc n) (x ∷ xs) = ap (◌∷◌ x) (take-append-drop n xs)

  pub take-length : (xs ys : List A) → take (length xs) (xs ++ ys) ≡ xs
  take-length [] ys = refl
  take-length (x ∷ xs) ys = ap (◌∷◌ x) (take-length xs ys)

  pub drop-length : (xs ys : List A) → drop (length xs) (xs ++ ys) ≡ ys
  drop-length [] ys = refl
  drop-length (x ∷ xs) ys = drop-length xs ys

  -- The items that pass a test, in order.
  unfoldable pub keep_if : (A → Bool) → List A → List A
  keep_if p [] = []
  keep_if p (x ∷ xs) = if p x then x ∷ keep_if p xs else keep_if p xs

  -- The first item that passes a test.
  unfoldable pub find_first : (A → Bool) → List A → Option A
  find_first p [] = none
  find_first p (x ∷ xs) = if p x then some x else find_first p xs

  unfoldable pub any_of : (A → Bool) → List A → Bool
  any_of p [] = false
  any_of p (x ∷ xs) = if p x then true else any_of p xs

  -- A predicate on all items, by recursion: it computes to a tuple.
  abbrev pub All {κ} : (A → Type κ) → List A → Type κ
  All P [] = Unit
  All P (x ∷ xs) = P x × All P xs

  -- Membership with the place kept.
  pub data In (a : A) : List A → Type ℓ where
    here : {x : A} {xs : List A} → a ≡ x → In a (x ∷ xs)
    there : {x : A} {xs : List A} → In a xs → In a (x ∷ xs)

  -- Go leaves the order of a range over a map open. `choice k` says where the entry that has `k`
  -- entries behind it is put: every order is one of these, for some `choice`.
  unfoldable pub insert_at : ℕ → A → List A → List A
  insert_at zero x ys = x ∷ ys
  insert_at (suc k) x [] = x ∷ []
  insert_at (suc k) x (y ∷ ys) = y ∷ insert_at k x ys

  unfoldable pub range_order : (ℕ → ℕ) → List A → List A
  unfolding insert_at
  range_order choice [] = []
  range_order choice (x ∷ xs) = insert_at (choice (length xs)) x (range_order choice xs)

module _ {ℓ κ} {A : Type ℓ} (P : A → Type κ) where
  pub All-of_In : (xs : List A) → ((a : A) → In a xs → P a) → All P xs
  All-of_In [] h = tt
  All-of_In (x ∷ xs) h = (h x (here refl), All-of_In xs (λ a i. h a (there i)))

  All-insert_at : (k : ℕ) (x : A) (ys : List A) → P x → All P ys → All P (insert_at k x ys)
  unfolding insert_at
  All-insert_at zero x ys p h = (p, h)
  All-insert_at (suc k) x [] p h = (p, tt)
  All-insert_at (suc k) x (y ∷ ys) p h = (h.0, All-insert_at k x ys p h.1)

  pub All-range_order : (choice : ℕ → ℕ) (xs : List A) → All P xs → All P (range_order choice xs)
  unfolding range_order
  All-range_order choice [] h = tt
  All-range_order choice (x ∷ xs) h =
      All-insert_at (choice (length xs)) x _ h.0 (All-range_order choice xs h.1)

  pub All-append : (xs ys : List A) → All P xs → All P ys → All P (xs ++ ys)
  All-append [] ys h k = k
  All-append (x ∷ xs) ys h k = (h.0, All-append xs ys h.1 k)

-- What passes a test has been seen to pass it.
module _ {ℓ κ} {A : Type ℓ} (P : A → Type κ) (p : A → Bool) where
  pub All-keep_if : (xs : List A) → All P xs → All (λ x. P x × (p x ≡ true)) (keep_if p xs)
  unfolding keep_if
  All-keep_if [] h = tt
  All-keep_if (x ∷ xs) h = elim (Bool-cases (p x)) [
    | inl e ↦ rw e ((h.0, e), All-keep_if xs h.1)
    | inr e ↦ rw e (All-keep_if xs h.1)
  ]

  pub find_first-All :
      (xs : List A) {a : A} → All P xs → find_first p xs ≡ some a → P a × (p a ≡ true)
  unfolding find_first
  find_first-All [] h e = cc
  find_first-All (x ∷ xs) {a} h e = elim (Bool-cases (p x)) [
    | inl t ↦ let q : x ≡ a = cc (rw t at e) in subst (λ y. P y × (p y ≡ true)) q (h.0, t)
    | inr f ↦ find_first-All xs h.1 (rw f at e)
  ]

module _ {ℓ κ κ'} {A : Type ℓ} (P : A → Type κ) (Q : A → Type κ') where
  pub All-map : ((a : A) → P a → Q a) → (xs : List A) → All P xs → All Q xs
  All-map f [] h = tt
  All-map f (x ∷ xs) h = (f x h.0, All-map f xs h.1)
