-- ===== src/Sniproxy/Router/Table/Entries.antt =====
-- router.go: what the entries of a routing table are after drop_entry, drop_old and put.
use kubernetes_switchcloud.Base.{
  ℕ, Bool, true, false, not, ◌&&◌, List, [], ◌∷◌, Option, none, some, Bytes, bytes_eq, bytes_eq_iff,
  has_prefix, bytes_key, lookup, erase, lookup-insert, lookup-erase, range_order, insert_at, any_of,
  length, zero, suc, if◌then◌else◌, ◌≡◌, refl, arith, Bool-cases, Option-cases, inl, inr,
}
use kubernetes_switchcloud.Sniproxy.Router.{
  Table, Tables, or_empty, put, drop_entry, drop_old, drop_all, find_backend,
}

-- Is the entry of the Service with the prefix?
abbrev pub belongs : Bytes → Option Bytes → Bool
belongs prefix none = false
belongs prefix (some b) = has_prefix b prefix

-- Is the pair among the entries?
abbrev pub holds : Bytes → Bytes → Table → Bool
holds label host entries = any_of (λ e. bytes_eq e.0 label && bytes_eq e.1 host) entries

pub find_backend-drop_entry :
    (prefix label host : Bytes) (tables : Tables) (l h : Bytes)
    → find_backend (drop_entry prefix label host tables) l h ≡ (
        if bytes_eq label l && bytes_eq host h && belongs prefix (find_backend tables l h)
        then none
        else find_backend tables l h)
unfolding find_backend drop_entry
find_backend-drop_entry prefix label host tables l h = elim (Option-cases (lookup label tables)) [
  | inl e ↦ ground (arith, e, bytes_eq_iff label l, bytes_eq_iff host h)
  | inr (table, e) ↦ elim (Option-cases (lookup host table)) [
    | inl f ↦ ground (arith, e, f, bytes_eq_iff label l, bytes_eq_iff host h)
    | inr (cur, f) ↦ ground (
      arith,
      e,
      f,
      bytes_eq_iff label l,
      bytes_eq_iff host h,
      lookup-insert label l (erase host table) tables,
      lookup-erase host h table,
    )
  ]
]

pub find_backend-drop_all :
    (prefix : Bytes) (prior : Table) (tables : Tables) (l h : Bytes)
    → find_backend (drop_all prefix prior tables) l h ≡ (
        if holds l h prior && belongs prefix (find_backend tables l h)
        then none
        else find_backend tables l h)
unfolding drop_all any_of
find_backend-drop_all prefix [] tables l h = refl
find_backend-drop_all prefix ((label, host) ∷ prior) tables l h = ground (
  arith,
  find_backend-drop_all prefix prior (drop_entry prefix label host tables) l h,
  find_backend-drop_entry prefix label host tables l h,
)

module _ {A : Type 0} (p : A → Bool) where
  any_of-insert_at :
      (k : ℕ) (x : A) (ys : List A)
      → any_of p (insert_at k x ys) ≡ (if p x then true else any_of p ys)
  unfolding any_of insert_at
  any_of-insert_at zero x ys = refl
  any_of-insert_at (suc k) x [] = refl
  any_of-insert_at (suc k) x (y ∷ ys) = ground (arith, any_of-insert_at k x ys)

  -- The order of a range does not matter to what it meets.
  pub any_of-range_order :
      (choice : ℕ → ℕ) (xs : List A) → any_of p (range_order choice xs) ≡ any_of p xs
  unfolding any_of range_order
  any_of-range_order choice [] = refl
  any_of-range_order choice (x ∷ xs) = ground (
    arith,
    any_of-insert_at (choice (length xs)) x (range_order choice xs),
    any_of-range_order choice xs,
  )

pub find_backend-drop_old :
    (prefix : Bytes) (next prior : Table) (tables : Tables) (l h : Bytes)
    → find_backend (drop_old prefix next prior tables) l h ≡ (
        if holds l h prior
          && not (bytes_eq (or_empty (lookup l next)) h)
          && belongs prefix (find_backend tables l h)
        then none
        else find_backend tables l h)
unfolding drop_old any_of
find_backend-drop_old prefix next [] tables l h = refl
find_backend-drop_old prefix next ((label, host) ∷ prior) tables l h =
    elim (Bool-cases (bytes_eq (or_empty (lookup label next)) host)) [
      | inl e ↦ rw e (
          ground (
            arith,
            e,
            bytes_eq_iff label l,
            bytes_eq_iff host h,
            find_backend-drop_old prefix next prior tables l h,
          ))
      | inr e ↦ rw e (
          ground (
            arith,
            e,
            bytes_eq_iff label l,
            bytes_eq_iff host h,
            find_backend-drop_old prefix next prior (drop_entry prefix label host tables) l h,
            find_backend-drop_entry prefix label host tables l h,
          ))
    ]

pub lookup-put :
    (host b : Bytes) (table : Table) (h : Bytes)
    → lookup h (put host b table) ≡ (if bytes_eq host h then some b else lookup h table)
unfolding put
lookup-put host b table h = elim (Option-cases (lookup host table)) [
  | inl e ↦ ground (arith, e, lookup-insert host h b table)
  | inr (cur, e) ↦
      ground (arith, e, bytes_eq_iff cur b, bytes_eq_iff host h, lookup-insert host h b table)
]

abbrev pub is_some {ℓ} : {A : Type ℓ} → Option A → Bool
is_some none = false
is_some (some a) = true
