-- ===== src/Sniproxy/IpSync/Addresses.antt =====
-- ipsync.go: which addresses are wanted, and in what order they stand.
use kubernetes_switchcloud.Base.{
  contains_string-append, Bool, false, not, ◌&&◌, ◌||◌, List, [], ◌∷◌, ◌++◌, Bytes, is_empty,
  bytes_eq, bytes_eq_iff, contains_string, any_of, ◌≡◌, refl, arith, Bool-cases, inl, inr,
}
use kubernetes_switchcloud.Sniproxy.IpSync.{
  NodeAddress, Node, split_byte, parts_of, trim_space, see, is_node_ip, see_addresses, see_extra,
  see_node, see_nodes, wanted_ips,
}
use kubernetes_switchcloud.Sniproxy.IpSync.Sorted.{
  IsAscending, IsDistinct, contains_string-sort_strings, sort_strings-IsAscending,
}

-- The addresses that a node has, by its status and by its annotation.
abbrev pub has_address : Bytes → NodeAddress → Bool
has_address ip addr = is_node_ip addr && bytes_eq addr.address ip

abbrev pub has_part : Bytes → Bytes → Bool
has_part ip part = not (is_empty ip) && bytes_eq (trim_space part) ip

abbrev pub has_ip : Bytes → Node → Bool
has_ip ip node =
    any_of (has_address ip) node.addresses
    || (not (is_empty node.extra_ips)
        && any_of (has_part ip) (parts_of (split_byte b',' node.extra_ips)))

contains_string-see :
    (ips : List Bytes) (new ip : Bytes)
    → contains_string (see ips new) ip ≡ (contains_string ips ip || bytes_eq new ip)
unfolding see contains_string
contains_string-see ips new ip =
    ground (arith, contains_string-append ips (new ∷ []) ip, bytes_eq_iff new ip)

contains_string-see_addresses :
    (addrs : List NodeAddress) (ips : List Bytes) (ip : Bytes)
    → contains_string (see_addresses addrs ips) ip
      ≡ (contains_string ips ip || any_of (has_address ip) addrs)
unfolding see_addresses any_of
contains_string-see_addresses [] ips ip = ground arith
contains_string-see_addresses (a ∷ addrs) ips ip = ground (
  arith,
  contains_string-see ips a.address ip,
  contains_string-see_addresses addrs (see ips a.address) ip,
  contains_string-see_addresses addrs ips ip,
)

contains_string-see_extra :
    (parts ips : List Bytes) (ip : Bytes)
    → contains_string (see_extra parts ips) ip
      ≡ (contains_string ips ip || any_of (has_part ip) parts)
unfolding see_extra any_of
contains_string-see_extra [] ips ip = ground arith
contains_string-see_extra (part ∷ parts) ips ip = ground (
  arith,
  bytes_eq_iff (trim_space part) ip,
  contains_string-see ips (trim_space part) ip,
  contains_string-see_extra parts (see ips (trim_space part)) ip,
  contains_string-see_extra parts ips ip,
)

contains_string-see_node :
    (node : Node) (ips : List Bytes) (ip : Bytes)
    → contains_string (see_node node ips) ip ≡ (contains_string ips ip || has_ip ip node)
unfolding see_node
contains_string-see_node node ips ip = ground (
  arith,
  contains_string-see_addresses node.addresses ips ip,
  contains_string-see_extra (parts_of (split_byte b',' node.extra_ips))
      (see_addresses node.addresses ips) ip,
)

contains_string-see_nodes :
    (nodes : List Node) (ips : List Bytes) (ip : Bytes)
    → contains_string (see_nodes nodes ips) ip
      ≡ (contains_string ips ip || any_of (has_ip ip) nodes)
unfolding see_nodes any_of
contains_string-see_nodes [] ips ip = ground arith
contains_string-see_nodes (node ∷ nodes) ips ip = ground (
  arith,
  contains_string-see_node node ips ip,
  contains_string-see_nodes nodes (see_node node ips) ip,
)

append-IsDistinct :
    (ips : List Bytes) (ip : Bytes)
    → IsDistinct ips
    → contains_string ips ip ≡ false
    → IsDistinct (ips ++ (ip ∷ []))
unfolding contains_string
append-IsDistinct [] ip h n = (refl, tt)
append-IsDistinct (s ∷ ips) ip h n = (
  ground
      (arith, h.0, n, contains_string-append ips (ip ∷ []) s, bytes_eq_iff s ip, bytes_eq_iff ip s),
  append-IsDistinct ips ip h.1 (ground (arith, n)),
)

see-IsDistinct : (ips : List Bytes) (ip : Bytes) → IsDistinct ips → IsDistinct (see ips ip)
unfolding see
see-IsDistinct ips ip h = elim (Bool-cases (contains_string ips ip)) [
  | inl e ↦ rw e h
  | inr e ↦ rw e (append-IsDistinct ips ip h e)
]

see_addresses-IsDistinct :
    (addrs : List NodeAddress) (ips : List Bytes)
    → IsDistinct ips
    → IsDistinct (see_addresses addrs ips)
unfolding see_addresses
see_addresses-IsDistinct [] ips h = h
see_addresses-IsDistinct (a ∷ addrs) ips h = elim (Bool-cases (is_node_ip a)) [
  | inl e ↦
      rw (e, see_addresses)
        (see_addresses-IsDistinct addrs (see ips a.address) (see-IsDistinct ips a.address h))
  | inr e ↦ rw (e, see_addresses) (see_addresses-IsDistinct addrs ips h)
]

see_extra-IsDistinct : (parts ips : List Bytes) → IsDistinct ips → IsDistinct (see_extra parts ips)
unfolding see_extra
see_extra-IsDistinct [] ips h = h
see_extra-IsDistinct (part ∷ parts) ips h = elim (Bool-cases (is_empty (trim_space part))) [
  | inl e ↦ rw (e, see_extra) (see_extra-IsDistinct parts ips h)
  | inr e ↦
      rw (e, see_extra)
        (see_extra-IsDistinct parts (see ips (trim_space part))
          (see-IsDistinct ips (trim_space part) h))
]

see_nodes-IsDistinct :
    (nodes : List Node) (ips : List Bytes) → IsDistinct ips → IsDistinct (see_nodes nodes ips)
unfolding see_nodes see_node
see_nodes-IsDistinct [] ips h = h
see_nodes-IsDistinct (node ∷ nodes) ips h =
    let d = see_addresses-IsDistinct node.addresses ips h in
    see_nodes-IsDistinct nodes (see_node node ips) (elim (Bool-cases (is_empty node.extra_ips)) [
      | inl e ↦ rw (e, see_node) d
      | inr e ↦
          rw (e, see_node)
            (see_extra-IsDistinct (parts_of (split_byte b',' node.extra_ips))
              (see_addresses node.addresses ips) d)
    ])

-- The addresses that are wanted stand in strictly ascending order, and are just those that some
-- node has: as an internal or external address of its status, or as a part of its annotation that
-- is not empty once the spaces around it are off.
pub wanted_ips-IsAscending :
    (nodes : List Node)
    → IsAscending (wanted_ips nodes)
      × ((ip : Bytes) → contains_string (wanted_ips nodes) ip ≡ any_of (has_ip ip) nodes)
unfolding wanted_ips contains_string
wanted_ips-IsAscending nodes = (
  sort_strings-IsAscending (see_nodes nodes []) (see_nodes-IsDistinct nodes [] tt),
  λ ip. ground (
    arith,
    contains_string-sort_strings (see_nodes nodes []) ip,
    contains_string-see_nodes nodes [] ip,
  ),
)
