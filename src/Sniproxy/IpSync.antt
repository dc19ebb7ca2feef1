-- ===== src/Sniproxy/IpSync.antt =====
-- ipsync.go: the externalIPs of the router's Service, kept up with the addresses of the nodes.
pub mod Sorted
pub mod Addresses
pub mod Debounce
pub mod Settled
use kubernetes_switchcloud.Base.{
  ℕ, Bool, true, false, not, ◌&&◌, ◌||◌, List, [], ◌∷◌, ◌++◌, Option, none, some, Bytes, lit,
  is_empty, bytes_eq, contains_string, length, ltb, leb, if◌then◌else◌, ◌==◌, ◌+◌, ◌-◌, String,
}
use kubernetes_switchcloud.Cloud.Types.{Error, Result, ok, err}
use kubernetes_switchcloud.Cloud.Action.{wrapped}

pub record NodeAddress : Type 0 where
  pub type : Bytes
  pub address : Bytes

-- The fields of a Node that are read; the annotation is empty where it is not there.
pub record Node : Type 0 where
  pub addresses : List NodeAddress
  pub extra_ips : Bytes

-- The fields of the router's Service that are read.
pub record RouterService : Type 0 where
  pub type : Bytes
  pub external_ips : List Bytes

-- strings.Split(s, string(sep)): the part before the first sep, and the parts behind it.
unfoldable pub split_byte : ℕ → Bytes → Bytes × List Bytes
split_byte sep [] = ([], [])
split_byte sep (c ∷ s) =
    let (first, rest) = split_byte sep s in
    if c == sep then ([], first ∷ rest) else (c ∷ first, rest)

abbrev pub parts_of : Bytes × List Bytes → List Bytes
parts_of (first, rest) = first ∷ rest

-- A space, over ASCII.
abbrev pub is_space : ℕ → Bool
is_space c = c == 32 || (leb 9 c && leb c 13)

unfoldable pub trim_left : Bytes → Bytes
trim_left [] = []
trim_left (c ∷ s) = if is_space c then trim_left s else c ∷ s

unfoldable pub trim_right : Bytes → Bytes
trim_right [] = []
trim_right (c ∷ s) = let rest = trim_right s in if is_empty rest && is_space c then [] else c ∷ rest

-- strings.TrimSpace, over ASCII.
unfoldable pub trim_space : Bytes → Bytes
unfolding trim_left trim_right
trim_space s = trim_right (trim_left s)

-- s <= t, for strings.
unfoldable pub bytes_leb : Bytes → Bytes → Bool
bytes_leb [] t = true
bytes_leb (x ∷ s) [] = false
bytes_leb (x ∷ s) (y ∷ t) = let rest = bytes_leb s t in ltb x y || (x == y && rest)

unfoldable pub insert_sorted : Bytes → List Bytes → List Bytes
insert_sorted s [] = s ∷ []
insert_sorted s (t ∷ ts) = if bytes_leb s t then s ∷ t ∷ ts else t ∷ insert_sorted s ts

-- sort.Strings: strings that compare equal are equal, so that any sort gives this list.
unfoldable pub sort_strings : List Bytes → List Bytes
unfolding insert_sorted
sort_strings [] = []
sort_strings (s ∷ ss) = insert_sorted s (sort_strings ss)

-- `ips`, whose strings are the keys of `seen`: a string that is not seen is appended.
unfoldable pub see : List Bytes → Bytes → List Bytes
see ips ip = if contains_string ips ip then ips else ips ++ (ip ∷ [])

abbrev pub is_node_ip : NodeAddress → Bool
is_node_ip addr =
    not (not (bytes_eq addr.type (lit "InternalIP")) && not (bytes_eq addr.type (lit "ExternalIP")))

-- The loop over the addresses of a node.
unfoldable pub see_addresses : List NodeAddress → List Bytes → List Bytes
unfolding see
see_addresses [] ips = ips
see_addresses (addr ∷ addrs) ips =
    see_addresses addrs (if is_node_ip addr then see ips addr.address else ips)

-- The loop over the parts of the annotation.
unfoldable pub see_extra : List Bytes → List Bytes → List Bytes
unfolding see
see_extra [] ips = ips
see_extra (part ∷ parts) ips =
    let ip = trim_space part in see_extra parts (if is_empty ip then ips else see ips ip)

unfoldable pub see_node : Node → List Bytes → List Bytes
unfolding see_addresses see_extra
see_node node ips =
    let with_addresses = see_addresses node.addresses ips in
    if is_empty node.extra_ips
    then with_addresses
    else see_extra (parts_of (split_byte b',' node.extra_ips)) with_addresses

-- The loop over the nodes.
unfoldable pub see_nodes : List Node → List Bytes → List Bytes
unfolding see_node
see_nodes [] ips = ips
see_nodes (node ∷ nodes) ips = see_nodes nodes (see_node node ips)

-- The sorted addresses.
unfoldable pub wanted_ips : List Node → List Bytes
unfolding see_nodes
wanted_ips nodes = sort_strings (see_nodes nodes [])

unfoldable pub lists_eq : List Bytes → List Bytes → Bool
lists_eq [] [] = true
lists_eq (s ∷ ss) (t ∷ ts) = bytes_eq s t && lists_eq ss ts
lists_eq _ _ = false

-- reflect.DeepEqual(current, ips): `ips` is nil where nothing was appended to it, `current` never
-- is, and DeepEqual tells a nil slice from an empty one.
unfoldable pub deep_equal : List Bytes → List Bytes → Bool
unfolding lists_eq
deep_equal current [] = false
deep_equal current (ip ∷ ips) = lists_eq current (ip ∷ ips)

-- The answers: the lister's, the Service, and that to the patch of its externalIPs. A patch with
-- null takes the field away, as the empty list does here.
pub record IpSyncEnv : Type 0 where
  pub list_nodes : Result (List Node)
  pub get_service : Result RouterService
  pub patch_service : List Bytes → Result (Unit {0})

-- syncExternalIPs: the result, and the patch that was sent, if one was.
unfoldable pub sync_external_ips : IpSyncEnv → Result (Unit {0}) × Option (List Bytes)
unfolding wanted_ips deep_equal
sync_external_ips env = elim env.list_nodes [
  | err e ↦ (err (wrapped (lit "list nodes") e), none)
  | ok nodes ↦
      let ips = wanted_ips nodes in
      elim env.get_service [
        | err e ↦ (err (wrapped (lit "get service") e), none)
        | ok svc ↦
            if bytes_eq svc.type (lit "LoadBalancer")
            then (ok tt, none)
            else if deep_equal (sort_strings svc.external_ips) ips
            then (ok tt, none)
            else elim (env.patch_service ips) [
              | err e ↦ (err (wrapped (lit "patch service") e), some ips)
              | ok _ ↦ (ok tt, some ips)
            ]
      ]
]

-- SyncDebounceInterval, in seconds.
abbrev pub sync_debounce_interval : ℕ
sync_debounce_interval = 30

-- The time at which a select sees something of the time `t`, where it starts at `since`.
unfoldable pub latest : ℕ → ℕ → ℕ
latest t since = if ltb t since then since else t

-- The start of the sync for an event: the loop receives it when its last sync has ended, and waits
-- until the interval is over.
unfoldable pub next_start : ℕ → ℕ → ℕ
unfolding latest
next_start event last_sync =
    let received = latest event last_sync in
    if ltb (received - last_sync) sync_debounce_interval
    then last_sync + sync_debounce_interval
    else received

-- Does a select that starts at `since` take ctx.Done rather than what is ready at `at`? The context
-- is cancel at the given time, if ever. Where both are ready Go picks one, by `tie`.
unfoldable pub takes_done : Option ℕ → Bool → ℕ → ℕ → Bool
takes_done none tie since at = false
takes_done (some d) tie since at = ltb (latest d since) at || (latest d since == at && tie)

-- When the loop of RunIPSyncer syncs until it returns: each sync with its start and its end.
-- `duration k` is what the sync takes behind which k events are left, and `tie k` how the two
-- selects before it pick. An event whose time is not past `drained` has left the trigger, which
-- holds one event at most; `last_sync` is the end of the last sync.
unfoldable pub run_ip_syncer :
    Option ℕ → (ℕ → Bool × Bool) → (ℕ → ℕ) → ℕ → ℕ → List ℕ → List (ℕ × ℕ)
unfolding next_start latest takes_done
run_ip_syncer cancel tie duration drained last_sync [] = []
run_ip_syncer cancel tie duration drained last_sync (event ∷ events) =
    let received = latest event last_sync in
    let start = next_start event last_sync in
    let end = start + duration (length events) in
    let (idle, waiting) = tie (length events) in
    let synced = (start, end) ∷ run_ip_syncer cancel tie duration start end events in
    let skipped = run_ip_syncer cancel tie duration drained last_sync events in
    if leb event drained
    then skipped
    else if takes_done cancel idle last_sync received
    then []
    else if ltb received start && takes_done cancel waiting received start
    then []
    else synced
