-- ===== src/Cloud/Pages.antt =====
-- What EachPage is used for: to look for the first item that fits, and to collect those that fit.
use kubernetes_switchcloud.Base.{
  Bool, true, List, [], ◌++◌, ◌≡◌, Option, none, some, keep_if, find_first, All, All-keep_if,
  All-append, find_first-All, Option-cases, inl, inr, ◌⊎◌, In, All-of_In,
}
use kubernetes_switchcloud.Cloud.Types.{Result, ok, err, Pages, last, page, broken}
use kubernetes_switchcloud.Cloud.Hoare.{OkMeets}

module _ {A : Type 0} where
  -- The handler returns false, which stops the pager, at the first item that fits.
  unfoldable pub find_in_pages : (A → Bool) → Pages A → Result (Option A)
  find_in_pages p last = ok none
  find_in_pages p (broken e) = err e
  find_in_pages p (page xs rest) = elim (find_first p xs) [
    | some x ↦ ok (some x)
    | none ↦ find_in_pages p rest
  ]

  -- out = append(out, …) for the items that fit, over all pages.
  unfoldable pub collect_onto : (A → Bool) → List A → Pages A → Result (List A)
  collect_onto p out last = ok out
  collect_onto p out (broken e) = err e
  collect_onto p out (page xs rest) = collect_onto p (out ++ keep_if p xs) rest

  unfoldable pub collect : (A → Bool) → Pages A → Result (List A)
  unfolding collect_onto
  collect p = collect_onto p []

  -- A predicate on all items of all pages.
  abbrev pub AllPages : (A → Type 0) → Pages A → Type 0
  AllPages P last = Unit
  AllPages P (broken e) = Unit
  AllPages P (page xs rest) = All P xs × AllPages P rest

  -- The item is on some page that loads.
  abbrev pub InPages : A → Pages A → Type 0
  InPages x last = ⊥
  InPages x (broken e) = ⊥
  InPages x (page xs rest) = In x xs ⊎ InPages x rest

  pub AllPages-of_InPages :
      (P : A → Type 0) (ps : Pages A) → ((x : A) → InPages x ps → P x) → AllPages P ps
  AllPages-of_InPages P last h = tt
  AllPages-of_InPages P (broken e) h = tt
  AllPages-of_InPages P (page xs rest) h =
      (All-of_In P xs (λ x i. h x (inl i)), AllPages-of_InPages P rest (λ x i. h x (inr i)))

module _ {A : Type 0} (P : A → Type 0) (p : A → Bool) where
  abbrev pub Passes : A → Type 0
  Passes x = P x × (p x ≡ true)

  abbrev pub SomePasses : Option A → Type 0
  SomePasses none = Unit
  SomePasses (some x) = Passes x

  pub find_in_pages-OkMeets :
      (ps : Pages A) → AllPages P ps → OkMeets SomePasses (find_in_pages p ps)
  unfolding find_in_pages
  find_in_pages-OkMeets last h = tt
  find_in_pages-OkMeets (broken e) h = tt
  find_in_pages-OkMeets (page xs rest) h = elim (Option-cases (find_first p xs)) [
    | inl e ↦ rw (e, OkMeets, find_in_pages) (find_in_pages-OkMeets rest h.1)
    | inr (x, e) ↦ rw (e, OkMeets, find_in_pages) (find_first-All P p xs h.0 e)
  ]

  collect_onto-OkMeets :
      (out : List A) (ps : Pages A)
      → All Passes out
      → AllPages P ps
      → OkMeets (All Passes) (collect_onto p out ps)
  unfolding collect_onto
  collect_onto-OkMeets out last k h = k
  collect_onto-OkMeets out (broken e) k h = tt
  collect_onto-OkMeets out (page xs rest) k h =
      collect_onto-OkMeets (out ++ keep_if p xs) rest
        (All-append Passes out _ k (All-keep_if P p xs h.0)) h.1

  pub collect-OkMeets : (ps : Pages A) → AllPages P ps → OkMeets (All Passes) (collect p ps)
  unfolding collect
  collect-OkMeets ps h = collect_onto-OkMeets [] ps tt h
