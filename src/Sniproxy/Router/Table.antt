-- ===== src/Sniproxy/Router/Table.antt =====
-- router.go: what a routing table answers after upsert and delete.
pub mod Entries
use kubernetes_switchcloud.Base.{
  ℕ, Bool, true, false, not, ◌&&◌, List, [], ◌∷◌, Option, none, some, Bytes, is_empty, bytes_eq,
  bytes_eq_iff, has_prefix, bytes_key, lookup, erase, lookup-insert, lookup-erase, range_order,
  insert_at, any_of, length, zero, suc, if◌then◌else◌, ◌==◌, ◌≡◌, refl, arith, Bool-cases,
  Option-cases, inl, inr,
}
use kubernetes_switchcloud.Sniproxy.Router.{
  Backend, Router, Table, Tables, or_empty, or_none, service_key, owner_prefix, port_for, address,
  put, register, register_one, drop_entry, drop_old, drop_all, keys, upsert, delete, find_backend,
  backend,
}
use Entries.{
  belongs, holds, find_backend-drop_all, any_of-range_order, find_backend-drop_old, lookup-put,
  is_some,
}

-- In whatever order delete goes: afterwards Backend finds none for a label and a host name that the
-- Service owned, where the entry was the Service's own, and finds what it found before for all
-- others.
pub backend-delete :
    (order : ℕ → ℕ) (svc : Backend) (r : Router) (l h : Bytes)
    → backend (delete order svc r) l h ≡ (
        if holds l h (or_none (lookup (service_key svc) r.owned))
          && belongs (owner_prefix svc) (backend r l h)
        then none
        else backend r l h)
unfolding backend delete any_of
backend-delete order svc r l h = elim (Option-cases (lookup (service_key svc) r.owned)) [
  | inl e ↦ rw (e, delete) refl
  | inr (prior, e) ↦
      rw (e, delete)
        (rw (← any_of-range_order (λ x. bytes_eq x.0 l && bytes_eq x.1 h) order prior)
          (find_backend-drop_all (owner_prefix svc) (range_order order prior) r.backends l h))
]

module _ (r : Router) (svc : Backend) where
  -- Does the Service want a backend for the label?
  abbrev pub wants : Tables → Bytes → Bool
  wants tables l = is_some (lookup l tables) && not (port_for r svc l == 0)

  module _ (label : Bytes) (tables : Tables) (next : Table) where
    register_one_tables :
        (l h : Bytes)
        → find_backend (register_one r svc label (tables, next)).0 l h ≡ (
            if bytes_eq label l && wants tables l && bytes_eq svc.hostname h
            then some (address r svc l)
            else find_backend tables l h)
    unfolding register_one find_backend
    register_one_tables l h = elim (Option-cases (lookup label tables)) [
      | inl f ↦ ground (arith, f, bytes_eq_iff label l)
      | inr (table, f) ↦
          let table' = put svc.hostname (address r svc label) table in
          ground (
            arith,
            f,
            bytes_eq_iff label l,
            bytes_eq_iff svc.hostname h,
            lookup-insert label l table' tables,
            lookup-put svc.hostname (address r svc label) table h,
          )
    ]

    wants-register_one :
        (l : Bytes) → wants (register_one r svc label (tables, next)).0 l ≡ wants tables l
    unfolding register_one
    wants-register_one l = elim (Option-cases (lookup label tables)) [
      | inl f ↦ ground (arith, f)
      | inr (table, f) ↦
          let table' = put svc.hostname (address r svc label) table in
          ground (arith, f, bytes_eq_iff label l, lookup-insert label l table' tables)
    ]

    register_one_next :
        (l : Bytes)
        → lookup l (register_one r svc label (tables, next)).1
          ≡ (if bytes_eq label l && wants tables l then some svc.hostname else lookup l next)
    unfolding register_one
    register_one_next l = elim (Option-cases (lookup label tables)) [
      | inl f ↦ ground (arith, f, bytes_eq_iff label l)
      | inr (table, f) ↦
          ground (arith, f, bytes_eq_iff label l, lookup-insert label l svc.hostname next)
    ]

  register_tables :
      (labels : List Bytes) (tables : Tables) (next : Table) (l h : Bytes)
      → find_backend (register r svc labels (tables, next)).0 l h ≡ (
          if any_of (λ x. bytes_eq x l) labels && wants tables l && bytes_eq svc.hostname h
          then some (address r svc l)
          else find_backend tables l h)
  unfolding register any_of
  register_tables [] tables next l h = refl
  register_tables (label ∷ labels) tables next l h =
      let (tables', next') = register_one r svc label (tables, next) in
      ground (
        arith,
        register_one_tables label tables next l h,
        wants-register_one label tables next l,
        register_tables labels tables' next' l h,
      )

  register_next :
      (labels : List Bytes) (tables : Tables) (next : Table) (l : Bytes)
      → lookup l (register r svc labels (tables, next)).1 ≡ (
          if any_of (λ x. bytes_eq x l) labels && wants tables l
          then some svc.hostname
          else lookup l next)
  unfolding register any_of
  register_next [] tables next l = refl
  register_next (label ∷ labels) tables next l =
      let (tables', next') = register_one r svc label (tables, next) in
      ground (
        arith,
        register_one_next label tables next l,
        wants-register_one label tables next l,
        register_next labels tables' next' l,
      )

  any_of-keys :
      (l : Bytes) (tables : Tables)
      → any_of (λ x. bytes_eq x l) (keys tables) ≡ is_some (lookup l tables)
  unfolding any_of lookup
  any_of-keys l [] = refl
  any_of-keys l ((j, t) ∷ tables) = ground (arith, any_of-keys l tables)

  lookup-nil : (l : Bytes) → lookup {V = Bytes} l [] ≡ none
  unfolding lookup
  lookup-nil l = refl

  bytes_eq-nil : (h : Bytes) → is_empty h ≡ false → bytes_eq [] h ≡ false
  unfolding bytes_eq
  bytes_eq-nil [] e = cc e
  bytes_eq-nil (b ∷ h) e = refl

-- In whatever orders upsert goes, for a host name that is not empty: afterwards Backend finds the
-- address of the Service for a label that is routed and that the Service has with a port, at the
-- Service's host name; else it finds none where the Service owned the label and the host name and
-- the entry was its own; and it finds what it found before for all others.
pub backend-upsert :
    (order order' : ℕ → ℕ) (svc : Backend) (r : Router) (l h : Bytes)
    → is_empty h ≡ false
    → backend (upsert order order' svc r) l h ≡ (
        if not (is_empty svc.hostname) && wants r svc r.backends l && bytes_eq svc.hostname h
        then some (address r svc l)
        else if holds l h (or_none (lookup (service_key svc) r.owned))
            && belongs (owner_prefix svc) (backend r l h)
        then none
        else backend r l h)
unfolding backend upsert any_of
backend-upsert order order' svc r l h some_host =
    let prior = or_none (lookup (service_key svc) r.owned) in
    let labels = range_order order (keys r.backends) in
    let registered = register r svc labels (r.backends, []) in
    let same = any_of-range_order (λ x. bytes_eq x.0 l && bytes_eq x.1 h) order' prior in
    let prefix = owner_prefix svc in
    let nothing = bytes_eq-nil r svc h some_host in
    elim (Bool-cases (is_empty svc.hostname)) [
      | inl e ↦
          rw (e, upsert)
            (ground (
              arith,
              e,
              same,
              nothing,
              lookup-nil r svc l,
              find_backend-drop_old prefix [] (range_order order' prior) r.backends l h,
            ))
      | inr e ↦
          rw (e, upsert)
            (ground (
              arith,
              e,
              same,
              nothing,
              lookup-nil r svc l,
              any_of-range_order (λ x. bytes_eq x l) order (keys r.backends),
              any_of-keys r svc l r.backends,
              register_tables r svc labels r.backends [] l h,
              register_next r svc labels r.backends [] l,
              find_backend-drop_old prefix registered.1 (range_order order' prior) registered.0 l h,
            ))
    ]
