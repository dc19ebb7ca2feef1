-- ===== src/Base/Maps.antt =====
-- A Go map as an association list with one entry for each key. The keys are of a type with ==.
use Prim.Native.Nat.{ℕ, zero, suc}
use mathlib.Core.Path.{◌≡◌, refl, ◌∙◌}
use mathlib.Core.Logic.{◌↔◌}
use mathlib.Core.Bool.{Bool, true}
use mathlib.Core.List.{List, [], ◌∷◌}
use mathlib.Core.Option.{Option, none, some}
use native.Mathlib.Omega.{arith}
use mathlib.Core.Logic.{inl, inr}
use kubernetes_switchcloud.Base.Tests.{if◌then◌else◌, Bool-cases}
use kubernetes_switchcloud.Base.Lists.{All, length, insert_at, range_order}
use kubernetes_switchcloud.Base.Text.{Bytes, bytes_eq, bytes_eq_iff}

pub record Key (K : Type 0) : Type 0 where
  pub same : K → K → Bool
  pub same_iff : (a b : K) → (same a b ≡ true) ↔ (a ≡ b)

instance abbrev pub bytes_key : Key Bytes
bytes_key = record { same = bytes_eq; same_iff = bytes_eq_iff }

module _ {ℓ} {V : Type ℓ} {K : Type 0} ⦃key : Key K⦄ where
  -- v, ok := m[k]
  unfoldable pub lookup : K → List (K × V) → Option V
  lookup k [] = none
  lookup k ((j, v) ∷ m) = if key.same j k then some v else lookup k m

  -- m[k] = v
  unfoldable pub insert : K → V → List (K × V) → List (K × V)
  insert k v [] = (k, v) ∷ []
  insert k v ((j, w) ∷ m) = if key.same j k then (k, v) ∷ m else (j, w) ∷ insert k v m

  -- delete(m, k)
  unfoldable pub erase : K → List (K × V) → List (K × V)
  erase k [] = []
  erase k ((j, w) ∷ m) = if key.same j k then erase k m else (j, w) ∷ erase k m

  pub lookup-insert :
      (k j : K) (v : V) (m : List (K × V))
      → lookup j (insert k v m) ≡ (if key.same k j then some v else lookup j m)
  unfolding lookup insert
  lookup-insert k j v [] = refl
  lookup-insert k j v ((i, w) ∷ m) =
      ground (arith, key.same_iff k j, key.same_iff i k, key.same_iff i j, lookup-insert k j v m)

  pub lookup-erase :
      (k j : K) (m : List (K × V))
      → lookup j (erase k m) ≡ (if key.same k j then none else lookup j m)
  unfolding lookup erase
  lookup-erase k j [] = ground arith
  lookup-erase k j ((i, w) ∷ m) =
      ground (arith, key.same_iff k j, key.same_iff i k, key.same_iff i j, lookup-erase k j m)

  pub All-insert {κ} :
      (P : K × V → Type κ) (k : K) (v : V) (m : List (K × V))
      → P (k, v)
      → All P m
      → All P (insert k v m)
  unfolding insert
  All-insert P k v [] p h = (p, tt)
  All-insert P k v ((j, w) ∷ m) p h = elim (Bool-cases (key.same j k)) [
    | inl e ↦ rw e (p, h.1)
    | inr e ↦ rw e (h.0, All-insert P k v m p h.1)
  ]

-- The Boolean `same` is false where the keys differ.
module _ {K : Type 0} ⦃key : Key K⦄ where
  pub same_refl : (k : K) → key.same k k ≡ true
  same_refl k = (key.same_iff k k).1 refl

-- What makes an association list a map: each key has one entry.
module _ {ℓ} {V : Type ℓ} {K : Type 0} ⦃key : Key K⦄ where
  abbrev pub IsMap : List (K × V) → Type ℓ
  IsMap [] = Unit
  IsMap ((k, v) ∷ m) = (lookup k m ≡ none) × IsMap m

  pub insert-IsMap : (k : K) (v : V) (m : List (K × V)) → IsMap m → IsMap (insert k v m)
  unfolding insert lookup
  insert-IsMap k v [] h = (refl, tt)
  insert-IsMap k v ((j, w) ∷ m) h = elim (Bool-cases (key.same j k)) [
    | inl e ↦ rw (e, ← (key.same_iff j k).0 e) h
    | inr e ↦ rw e (
      ground (arith, e, h, lookup-insert k j v m, key.same_iff k j, key.same_iff j k),
      insert-IsMap k v m h.1,
    )
  ]

  pub erase-IsMap : (k : K) (m : List (K × V)) → IsMap m → IsMap (erase k m)
  unfolding erase
  erase-IsMap k [] h = tt
  erase-IsMap k ((j, w) ∷ m) h = elim (Bool-cases (key.same j k)) [
    | inl e ↦ rw e (erase-IsMap k m h.1)
    | inr e ↦ rw e (ground (arith, e, h, lookup-erase k j m), erase-IsMap k m h.1)
  ]

  lookup-insert_at :
      (n : ℕ) (k : K) (v : V) (m : List (K × V)) (j : K)
      → lookup k m ≡ none
      → lookup j (insert_at n (k, v) m) ≡ (if key.same k j then some v else lookup j m)
  unfolding lookup insert_at
  lookup-insert_at zero k v m j h = refl
  lookup-insert_at (suc n) k v [] j h = refl
  lookup-insert_at (suc n) k v ((i, w) ∷ m) j h =
      ground
        (arith, h, key.same_iff k j, key.same_iff i j, key.same_iff i k, lookup-insert_at n k v m j)

  insert_at-IsMap :
      (n : ℕ) (k : K) (v : V) (m : List (K × V))
      → lookup k m ≡ none
      → IsMap m
      → IsMap (insert_at n (k, v) m)
  unfolding insert_at lookup
  insert_at-IsMap zero k v m h g = (h, g)
  insert_at-IsMap (suc n) k v [] h g = (refl, tt)
  insert_at-IsMap (suc n) k v ((i, w) ∷ m) h g = elim (Bool-cases (key.same i k)) [
    | inl e ↦ absurd (cc (rw e at h))
    | inr e ↦
        let h' : lookup k m ≡ none = rw e at h in
        (
          ground
              (arith, g, h', lookup-insert_at n k v m i h', key.same_iff k i, key.same_iff i k, e),
          insert_at-IsMap n k v m h' g.1,
        )
  ]

  -- A range over a map, in whatever order, goes over the same map.
  pub lookup-range_order :
      (choice : ℕ → ℕ) (m : List (K × V)) (j : K)
      → IsMap m
      → lookup j (range_order choice m) ≡ lookup j m
  unfolding range_order lookup
  lookup-range_order choice [] j h = refl
  lookup-range_order choice ((k, v) ∷ m) j h =
      lookup-insert_at (choice (length m)) k v (range_order choice m) j
        (lookup-range_order choice m k h.1 ∙ h.0)
      ∙ rw (lookup-range_order choice m j h.1) refl

  pub range_order-IsMap :
      (choice : ℕ → ℕ) (m : List (K × V)) → IsMap m → IsMap (range_order choice m)
  unfolding range_order
  range_order-IsMap choice [] h = tt
  range_order-IsMap choice ((k, v) ∷ m) h =
      insert_at-IsMap (choice (length m)) k v (range_order choice m)
        (lookup-range_order choice m k h.1 ∙ h.0) (range_order-IsMap choice m h.1)

module _ {ℓ} {V : Type ℓ} {K : Type 0} ⦃key : Key K⦄ where
  -- What all entries meet, the one that is found meets.
  pub lookup-All {κ} :
      (P : K × V → Type κ) (k : K) (v : V) (m : List (K × V))
      → All P m
      → lookup k m ≡ some v
      → P (k, v)
  unfolding lookup
  lookup-All P k v [] h e = absurd (cc e)
  lookup-All P k v ((j, w) ∷ m) h e = elim (Bool-cases (key.same j k)) [
    | inl f ↦
        let found : some w ≡ some v = rw (f, lookup) at e in
        let same : w ≡ v = cc found in rw (← (key.same_iff j k).0 f, ← same) h.0
    | inr f ↦ lookup-All P k v m h.1 (rw (f, lookup) at e)
  ]
