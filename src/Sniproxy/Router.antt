-- ===== src/Sniproxy/Router.antt =====
-- router.go: the table of backends by label and host name, kept up with the Services.
pub mod Table
use kubernetes_switchcloud.Base.{
  ℕ, Bool, true, false, not, ◌&&◌, ◌||◌, List, [], ◌∷◌, ◌++◌, map, Option, none, some, Bytes, lit,
  is_empty, bytes_eq, has_prefix, decimal, bytes_key, lookup, insert, erase, range_order,
  if◌then◌else◌, ◌==◌, String,
}

-- The fields of a Service that are read.
pub record Backend : Type 0 where
  pub namespace : Bytes
  pub name : Bytes
  pub labels : List (Bytes × Bytes)
  -- The annotation for the host name, empty where there is none.
  pub hostname : Bytes
  -- The names and numbers of the ports.
  pub ports : List (Bytes × ℕ)

abbrev pub Table : Type 0
Table = List (Bytes × Bytes)

abbrev pub Tables : Type 0
Tables = List (Bytes × Table)

-- Router
pub record Router : Type 0 where
  pub backends : Tables
  pub owned : List (Bytes × Table)
  pub port_by_label : List (Bytes × Bytes)

-- m[k] of a map of strings
abbrev pub or_empty : Option Bytes → Bytes
or_empty none = []
or_empty (some s) = s

abbrev pub or_none : Option Table → Table
or_none none = []
or_none (some t) = t

-- servicePort
unfoldable pub service_port : List (Bytes × ℕ) → Bytes → ℕ
service_port [] name = 0
service_port ((n, port) ∷ ports) name = if bytes_eq n name then port else service_port ports name

abbrev pub service_key : Backend → Bytes
service_key svc = svc.namespace ++ (b'/' ∷ svc.name)

-- ownerPrefix
unfoldable pub owner_prefix : Backend → Bytes
owner_prefix svc = svc.name ++ (b'.' ∷ (svc.namespace ++ lit ".svc:"))

-- The port of the Service for a label, 0 where the label or the port is not there.
unfoldable pub port_for : Router → Backend → Bytes → ℕ
port_for r svc label =
    if bytes_eq (or_empty (lookup label svc.labels)) (lit "true")
    then service_port svc.ports (or_empty (lookup label r.port_by_label))
    else 0

unfoldable pub address : Router → Backend → Bytes → Bytes
address r svc label = owner_prefix svc ++ decimal (port_for r svc label)

-- table[host] = backend, unless it is there.
unfoldable pub put : Bytes → Bytes → Table → Table
put host backend table = elim (lookup host table) [
  | none ↦ insert host backend table
  | some existing ↦ if bytes_eq existing backend then table else insert host backend table
]

-- The round of upsert for one label: the tables, and `next`.
unfoldable pub register_one : Router → Backend → Bytes → Tables × Table → Tables × Table
register_one r svc label (tables, next) =
    if port_for r svc label == 0 then (tables, next) else elim (lookup label tables) [
      | none ↦ (tables, next)
      | some table ↦ (
        insert label (put svc.hostname (address r svc label) table) tables,
        insert label svc.hostname next,
      )
    ]

-- The loop of upsert over the labels.
unfoldable pub register : Router → Backend → List Bytes → Tables × Table → Tables × Table
register r svc [] s = s
register r svc (label ∷ labels) s = register r svc labels (register_one r svc label s)

-- delete(table, host), where the entry is of the Service with the prefix.
unfoldable pub drop_entry : Bytes → Bytes → Bytes → Tables → Tables
drop_entry prefix label host tables = elim (lookup label tables) [
  | none ↦ tables
  | some table ↦ elim (lookup host table) [
    | none ↦ tables
    | some cur ↦ if has_prefix cur prefix then insert label (erase host table) tables else tables
  ]
]

-- The loop of upsert over `prior`.
unfoldable pub drop_old : Bytes → Table → Table → Tables → Tables
drop_old prefix next [] tables = tables
drop_old prefix next ((label, host) ∷ prior) tables = drop_old prefix next prior (
    if bytes_eq (or_empty (lookup label next)) host
    then tables
    else drop_entry prefix label host tables)

abbrev pub keys : Tables → List Bytes
keys tables = map (λ e. e.0) tables

abbrev pub set_owned : Bytes → Table → List (Bytes × Table) → List (Bytes × Table)
set_owned key [] owned = erase key owned
set_owned key (e ∷ next) owned = insert key (e ∷ next) owned

-- upsert, with the orders of its two ranges
unfoldable pub upsert : (ℕ → ℕ) → (ℕ → ℕ) → Backend → Router → Router
unfolding register register_one drop_old drop_entry put address port_for
upsert order order' svc r =
    let prior = or_none (lookup (service_key svc) r.owned) in
    let (tables, next) =
      if is_empty svc.hostname
      then (r.backends, [])
      else register r svc (range_order order (keys r.backends)) (r.backends, []) in
    record r {
      backends = drop_old (owner_prefix svc) next (range_order order' prior) tables;
      owned = set_owned (service_key svc) next r.owned;
    }

-- The loop of delete.
unfoldable pub drop_all : Bytes → Table → Tables → Tables
drop_all prefix [] tables = tables
drop_all prefix ((label, host) ∷ prior) tables =
    drop_all prefix prior (drop_entry prefix label host tables)

-- delete, with the order of its range
unfoldable pub delete : (ℕ → ℕ) → Backend → Router → Router
unfolding drop_all
delete order svc r = elim (lookup (service_key svc) r.owned) [
  | none ↦ r
  | some prior ↦ record r {
    backends = drop_all (owner_prefix svc) (range_order order prior) r.backends;
    owned = erase (service_key svc) r.owned;
  }
]

-- Router.Backend
unfoldable pub find_backend : Tables → Bytes → Bytes → Option Bytes
find_backend tables label host = elim (lookup label tables) [
  | none ↦ none
  | some table ↦ lookup host table
]

unfoldable pub backend : Router → Bytes → Bytes → Option Bytes
unfolding find_backend
backend r label host = find_backend r.backends label host
