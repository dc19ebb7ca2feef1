-- ===== src/Openstack/SecurityGroup.antt =====
-- securitygroup.go: the security group of a cluster and the NodePort rules of a Service.
pub mod Rules
pub mod Owned
use kubernetes_switchcloud.Base.{
  ℕ, Bool, true, false, not, ◌&&◌, ◌||◌, ◌≡◌, ◌↔◌, List, [], ◌∷◌, ◌++◌, map, Option, none, some,
  Bytes, lit, is_empty, bytes_eq, bytes_eq_iff, contains_string, contains_byte, has_prefix, decimal,
  to_lower, Key, lookup, insert, range_order, if◌then◌else◌, ◌==◌, arith, String,
}
use kubernetes_switchcloud.Cloud.Types.{
  Api, Call, SecGroup, SecGroupRule, RuleOpts, Service, ServicePort, list_sgs, create_sg,
  list_rules, create_rule, delete_rule,
}
use kubernetes_switchcloud.Cloud.Action.{
  M, return, fail, ◌>>=◌, ◌>>◌, request, listing, lift, wrap, new_error, for_each, map_order,
}
use kubernetes_switchcloud.Cloud.Pages.{find_in_pages, collect}
use kubernetes_switchcloud.Openstack.Names.{cluster_sg_name, managed_name_prefix}

unfoldable pub dir_ingress : Bytes
dir_ingress = lit "ingress"

unfoldable pub ether_type4 : Bytes
ether_type4 = lit "IPv4"

unfoldable pub ether_type6 : Bytes
ether_type6 = lit "IPv6"

-- ruleKey
pub record RuleKey : Type 0 where
  pub port : ℕ
  pub proto : Bytes
  pub cidr : Bytes

abbrev pub same_rule_key : RuleKey → RuleKey → Bool
same_rule_key k j = k.port == j.port && bytes_eq k.proto j.proto && bytes_eq k.cidr j.cidr

pub same_rule_key_iff : (k j : RuleKey) → (same_rule_key k j ≡ true) ↔ (k ≡ j)
same_rule_key_iff k j = ground (arith, bytes_eq_iff k.proto j.proto, bytes_eq_iff k.cidr j.cidr)

instance abbrev pub rule_key : Key RuleKey
rule_key = record { same = same_rule_key; same_iff = same_rule_key_iff }

-- ruleKey.String
unfoldable pub rule_key_string : RuleKey → Bytes
rule_key_string k = decimal k.port ++ (lit "/" ++ (k.proto ++ (lit ":" ++ k.cidr)))

-- ruleDescriptionPrefix
unfoldable pub rule_description_prefix : Bytes → Service → Bytes
rule_description_prefix tenant svc =
    managed_name_prefix
    ++ (tenant ++ (lit "/" ++ (svc.namespace ++ (lit "/" ++ (svc.name ++ lit ":")))))

-- ruleDescription
unfoldable pub rule_description : Bytes → Service → RuleKey → Bytes
unfolding rule_description_prefix
rule_description tenant svc k =
    managed_name_prefix
    ++ (tenant
        ++ (lit "/"
            ++ (svc.namespace ++ (lit "/" ++ (svc.name ++ (lit ":" ++ rule_key_string k))))))

-- etherTypeFor
unfoldable pub ether_type_for : Bytes → Bytes
ether_type_for cidr = if contains_byte b':' cidr then ether_type6 else ether_type4

-- The options that buildDesiredRules writes for one key. The group is set by the caller.
unfoldable pub desired_rule : Bytes → Service → RuleKey → RuleOpts
desired_rule tenant svc k = record {
  sec_group_id = [];
  direction = dir_ingress;
  ether_type = ether_type_for k.cidr;
  port_range_min = k.port;
  port_range_max = k.port;
  protocol = k.proto;
  remote_group_id = [];
  remote_ip_prefix = k.cidr;
  description = rule_description tenant svc k;
}

abbrev pub Rules : Type 0
Rules = List (RuleKey × RuleOpts)

-- The inner loop, over the CIDRs.
unfoldable pub desired_for_port : Bytes → Service → ServicePort → List Bytes → Rules → Rules
desired_for_port tenant svc p [] out = out
desired_for_port tenant svc p (cidr ∷ cidrs) out =
    let k : RuleKey = record { port = p.node_port; proto = to_lower p.protocol; cidr = cidr } in
    desired_for_port tenant svc p cidrs (insert k (desired_rule tenant svc k) out)

-- The outer loop, over the ports.
unfoldable pub desired_for_ports : Bytes → Service → List Bytes → List ServicePort → Rules → Rules
desired_for_ports tenant svc cidrs [] out = out
desired_for_ports tenant svc cidrs (p ∷ ps) out =
    desired_for_ports tenant svc cidrs ps
      (if p.node_port == 0 then out else desired_for_port tenant svc p cidrs out)

-- buildDesiredRules
unfoldable pub build_desired_rules : Bytes → Service → List Bytes → Rules
unfolding desired_for_ports desired_for_port
build_desired_rules tenant svc cidrs = desired_for_ports tenant svc cidrs svc.ports []

-- The tests of listOwnedRules: the description's prefix, the direction, one port.
unfoldable pub is_owned_rule : Bytes → SecGroupRule → Bool
is_owned_rule prefix r =
    has_prefix r.description prefix
    && bytes_eq r.direction dir_ingress
    && not (r.port_range_min == 0 || not (r.port_range_min == r.port_range_max))

unfoldable pub key_of : SecGroupRule → RuleKey
key_of r = record { port = r.port_range_min; proto = r.protocol; cidr = r.remote_ip_prefix }

unfoldable pub rules_by_key :
    List (RuleKey × SecGroupRule) → List SecGroupRule → List (RuleKey × SecGroupRule)
rules_by_key m [] = m
rules_by_key m (r ∷ rs) = rules_by_key (insert (key_of r) r m) rs

abbrev pub is_none {ℓ} : {A : Type ℓ} → Option A → Bool
is_none none = true
is_none (some a) = false

-- The two baseline rules of ensureBaselineRules.
unfoldable pub baseline_rule : Bytes → Bytes → Bytes → RuleOpts
baseline_rule sg_id ether_type description = record {
  sec_group_id = sg_id;
  direction = dir_ingress;
  ether_type = ether_type;
  port_range_min = 0;
  port_range_max = 0;
  protocol = [];
  remote_group_id = sg_id;
  remote_ip_prefix = [];
  description = description;
}

unfoldable pub baseline_rules : Bytes → List RuleOpts
baseline_rules sg_id =
    baseline_rule sg_id ether_type4 (lit "cozystack-lb baseline: intra-SG IPv4")
    ∷ baseline_rule sg_id ether_type6 (lit "cozystack-lb baseline: intra-SG IPv6")
    ∷ []

unfoldable pub is_baseline_rule : Bytes → SecGroupRule → Bool
is_baseline_rule sg_id r =
    bytes_eq r.direction (lit "ingress") && bytes_eq r.remote_group_id sg_id && is_empty r.protocol

module _ (api : Api) where
  -- findSGByName
  unfoldable pub find_sg_by_name : Bytes → M (Option SecGroup)
  find_sg_by_name name = do
    pages ← listing (list_sgs name) (λ log. api.list_sgs log name)
    lift (find_in_pages (λ sg. bytes_eq sg.name name) pages)

  unfoldable pub create_rule_if_missing : List Bytes → RuleOpts → M (Unit {0})
  create_rule_if_missing have opts =
      if contains_string have opts.ether_type
      then return tt
      else wrap (lit "creating baseline rule")
          (request (create_rule opts) (λ log. api.create_rule log opts))
        >>= λ _. return tt

  -- ensureBaselineRules
  unfoldable pub ensure_baseline_rules : Bytes → M (Unit {0})
  unfolding create_rule_if_missing
  ensure_baseline_rules sg_id = do
    pages ← listing (list_rules sg_id) (λ log. api.list_rules log sg_id)
    have ← wrap (lit "listing baseline rules") (lift (collect (is_baseline_rule sg_id) pages))
    for_each (create_rule_if_missing (map (λ r. r.ether_type) have)) (baseline_rules sg_id)

  -- EnsureClusterSecurityGroup
  unfoldable pub ensure_cluster_security_group : Bytes → M Bytes
  unfolding find_sg_by_name ensure_baseline_rules
  ensure_cluster_security_group cluster = do
    let name = cluster_sg_name cluster
    existing ← wrap (lit "looking up cluster SG") (find_sg_by_name name)
    elim existing [
      | some sg ↦ do
        wrap (lit "ensuring baseline rules on existing SG") (ensure_baseline_rules sg.id)
        return sg.id
      | none ↦ do
        let description = lit "Managed by Cozystack loadbalancer-controller; cluster=" ++ cluster
        created ←
            wrap (lit "creating cluster SG")
              (request (create_sg name description) (λ log. api.create_sg log name description))
        wrap (lit "ensuring baseline rules on new SG") (ensure_baseline_rules created.id)
        return created.id
    ]

  -- LookupClusterSecurityGroup: "" where there is none.
  unfoldable pub lookup_cluster_security_group : Bytes → M Bytes
  unfolding find_sg_by_name
  lookup_cluster_security_group cluster = do
    found ←
        wrap (lit "looking up cluster SG for cleanup") (find_sg_by_name (cluster_sg_name cluster))
    elim found [ none ↦ return [] | some sg ↦ return sg.id ]

  -- listOwnedRules
  unfoldable pub list_owned_rules : Bytes → Bytes → Service → M (List (RuleKey × SecGroupRule))
  list_owned_rules sg_id tenant svc = do
    pages ← listing (list_rules sg_id) (λ log. api.list_rules log sg_id)
    owned ← lift (collect (is_owned_rule (rule_description_prefix tenant svc)) pages)
    return (rules_by_key [] owned)

  drop_unwanted : Rules → RuleKey × SecGroupRule → M (Unit {0})
  drop_unwanted desired (key, r) =
      if is_none (lookup key desired)
      then wrap (lit "deleting stale SG rule " ++ r.id)
          (request (delete_rule r.id) (λ log. api.delete_rule log r.id))
      else return tt

  create_missing : Bytes → List (RuleKey × SecGroupRule) → RuleKey × RuleOpts → M (Unit {0})
  create_missing sg_id existing (key, opts) =
      if not (is_none (lookup key existing)) then return tt else do
        let opts' : RuleOpts = record opts { sec_group_id = sg_id }
        wrap (lit "creating SG rule " ++ rule_key_string key)
              (request (create_rule opts') (λ log. api.create_rule log opts'))
            >>= λ _. return tt

  -- EnsureNodePortRules
  unfoldable pub ensure_node_port_rules : Bytes → Bytes → Service → List Bytes → M (Unit {0})
  unfolding drop_unwanted create_missing list_owned_rules
  ensure_node_port_rules worker_sg_id tenant svc [] =
      if is_empty worker_sg_id
      then fail (new_error (lit "workerSecurityGroupID is empty"))
      else fail (new_error (lit "allowedCIDRs is empty"))
  ensure_node_port_rules worker_sg_id tenant svc (cidr ∷ cidrs) =
      if is_empty worker_sg_id then fail (new_error (lit "workerSecurityGroupID is empty")) else do
        existing ←
            wrap (lit "listing existing SG rules for Service")
              (list_owned_rules worker_sg_id tenant svc)
        let desired = build_desired_rules tenant svc (cidr ∷ cidrs)
        order ← map_order api.order
        for_each (drop_unwanted desired) (range_order order existing)
        order' ← map_order api.order
        for_each (create_missing worker_sg_id existing) (range_order order' desired)

  drop_rule : RuleKey × SecGroupRule → M (Unit {0})
  drop_rule (key, r) =
      wrap (lit "deleting SG rule " ++ r.id)
        (request (delete_rule r.id) (λ log. api.delete_rule log r.id))

  -- DeleteNodePortRules
  unfoldable pub delete_node_port_rules : Bytes → Bytes → Service → M (Unit {0})
  unfolding drop_rule list_owned_rules
  delete_node_port_rules worker_sg_id tenant svc = if is_empty worker_sg_id then return tt else do
    existing ← wrap (lit "listing SG rules for delete") (list_owned_rules worker_sg_id tenant svc)
    order ← map_order api.order
    for_each drop_rule (range_order order existing)
