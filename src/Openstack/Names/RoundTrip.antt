-- ===== src/Openstack/Names/RoundTrip.antt =====
-- sweep.go: the parsers on the names that loadbalancer.go writes.
use kubernetes_switchcloud.Base.{
  false, ◌≡◌, inl, inr, ◌∷◌, ◌++◌, some, Bytes, is_empty, has_prefix, trim_prefix, contains_byte,
  cut_byte, has_prefix-append, trim_prefix-append, has_prefix-split, cut_byte-append,
  cut_byte-split, Bool-cases, Option-cases, arith,
}
use kubernetes_switchcloud.Openstack.Names.{
  managed_name_prefix, service_lb_name, parse_cluster_from_lb_name, split_three,
  parse_service_from_tag,
}

-- A name as the apiserver admits it: not empty and with no slash.
pub record IsToken (s : Bytes) : Type 0 where
  pub non_empty : is_empty s ≡ false
  pub no_slash : contains_byte b'/' s ≡ false

-- Where the tenant's name is not empty and has no slash, parseClusterFromLBName reads it back from
-- the name that ServiceLBName makes.
pub parse_cluster_from_lb_name-service_lb_name :
    (tenant namespace name : Bytes)
    → IsToken tenant
    → parse_cluster_from_lb_name (service_lb_name tenant namespace name) ≡ some tenant
unfolding parse_cluster_from_lb_name service_lb_name
parse_cluster_from_lb_name-service_lb_name tenant namespace name t =
    let rest = tenant ++ (b'/' ∷ (namespace ++ (b'/' ∷ name))) in
    ground (
      arith,
      has_prefix-append managed_name_prefix rest,
      trim_prefix-append managed_name_prefix rest,
      cut_byte-append b'/' tenant (namespace ++ (b'/' ∷ name)) t.no_slash,
    )

-- Where the tenant and the namespace are not empty and have no slash, and the name is not empty and
-- has no colon, parseServiceFromTag reads all three back from the name that ServiceLBName makes.
pub parse_service_from_tag-service_lb_name :
    (tenant namespace name : Bytes)
    → IsToken tenant
    → IsToken namespace
    → is_empty name ≡ false
    → contains_byte b':' name ≡ false
    → parse_service_from_tag (service_lb_name tenant namespace name)
      ≡ some (tenant, namespace, name)
unfolding parse_service_from_tag service_lb_name
parse_service_from_tag-service_lb_name tenant namespace name t n e c =
    let rest = tenant ++ (b'/' ∷ (namespace ++ (b'/' ∷ name))) in
    ground (
      arith,
      has_prefix-append managed_name_prefix rest,
      trim_prefix-append managed_name_prefix rest,
      cut_byte-append b'/' tenant (namespace ++ (b'/' ∷ name)) t.no_slash,
      cut_byte-append b'/' namespace name n.no_slash,
    )

-- What parseClusterFromLBName finds is not empty and has no slash.
pub parse_cluster_from_lb_name_sound :
    (name cluster : Bytes) → parse_cluster_from_lb_name name ≡ some cluster → IsToken cluster
unfolding parse_cluster_from_lb_name
parse_cluster_from_lb_name_sound name cluster h =
    elim (Option-cases (cut_byte b'/' (trim_prefix name managed_name_prefix))) [
      | inl e ↦ absurd (ground (arith, e))
      | inr ((c, r), e) ↦
          let s = cut_byte-split b'/' (trim_prefix name managed_name_prefix) c r e in
          elim (Bool-cases (is_empty c)) [
            | inl f ↦ absurd (ground (arith, e, f))
            | inr f ↦
                let same : c ≡ cluster = ground (arith, e, f) in
                rw (← same) (record { non_empty = f; no_slash = s.1 })
          ]
    ]

split_three_sound :
    (s a b c : Bytes)
    → split_three s ≡ some (a, b, c)
    → (s ≡ a ++ (b'/' ∷ (b ++ (b'/' ∷ c))))
      × (contains_byte b'/' a ≡ false)
      × (contains_byte b'/' b ≡ false)
unfolding split_three
split_three_sound s a b c h = elim (Option-cases (cut_byte b'/' s)) [
  | inl e ↦ ground arith
  | inr ((a', r), e) ↦ elim (Option-cases (cut_byte b'/' r)) [
    | inl f ↦ ground arith
    | inr ((b', c'), f) ↦
        ground (arith, cut_byte-split b'/' s a' r e, cut_byte-split b'/' r b' c' f)
  ]
]

-- What parseServiceFromTag accepts is a name that ServiceLBName makes of the three parts that it
-- returns, none of which is empty; the first two have no slash and the last has no colon.
pub parse_service_from_tag_sound :
    (tag a b c : Bytes)
    → parse_service_from_tag tag ≡ some (a, b, c)
    → (tag ≡ service_lb_name a b c)
      × IsToken a
      × IsToken b
      × (is_empty c ≡ false)
      × (contains_byte b':' c ≡ false)
unfolding parse_service_from_tag service_lb_name trim_prefix
parse_service_from_tag_sound tag a b c h = elim (Bool-cases (has_prefix tag managed_name_prefix)) [
  | inr e ↦ ground arith
  | inl e ↦ elim (Option-cases (split_three (trim_prefix tag managed_name_prefix))) [
    | inl f ↦ ground arith
    | inr ((a', b', c'), f) ↦
        let s = split_three_sound (trim_prefix tag managed_name_prefix) a' b' c' f in
        ground (arith, has_prefix-split tag managed_name_prefix e, s)
  ]
]
