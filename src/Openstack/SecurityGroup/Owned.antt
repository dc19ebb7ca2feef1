-- ===== src/Openstack/SecurityGroup/Owned.antt =====
-- securitygroup.go: which rules EnsureNodePortRules and DeleteNodePortRules create and delete.
use kubernetes_switchcloud.Base.{
  true, false, List, [], ◌∷◌, Option, none, some, Bytes, is_empty, ◌≡◌, refl, sym, ap, In, All,
  All-insert, All-range_order, lookup, insert, ◌==◌, not, ◌∙◌,
}
use kubernetes_switchcloud.Cloud.Types.{
  Api, Call, Log, Service, ServicePort, SecGroupRule, RuleOpts, list_rules, create_rule,
  delete_rule,
}
use kubernetes_switchcloud.Cloud.Hoare.{
  Ensures, Any, return_ensures, fail_ensures, lift_ensures, request-Any, listing_ensures,
  bind_ensures, wrap_rule, if_ensures, for_each_ensures, calls_meet, map_order_ensures,
}
use kubernetes_switchcloud.Cloud.Pages.{AllPages, InPages, AllPages-of_InPages, collect-OkMeets}
use kubernetes_switchcloud.Openstack.SecurityGroup.{
  RuleKey, rule_key, desired_rule, build_desired_rules, is_owned_rule, is_none, key_of,
  rule_description_prefix, rules_by_key, list_owned_rules, drop_unwanted, create_missing,
  ensure_node_port_rules, delete_node_port_rules,
}
use kubernetes_switchcloud.Openstack.SecurityGroup.Rules.{
  Wanted, build_desired_rules-Wanted, port_key,
}

module _ (api : Api) (sg_id tenant : Bytes) (svc : Service) where
  -- Neutron has listed the rule in the group, with the description of the Service.
  abbrev pub OwnedRule : SecGroupRule → Type 0
  OwnedRule r =
      ((log : Log) × InPages r (api.list_rules log sg_id))
      × (is_owned_rule (rule_description_prefix tenant svc) r ≡ true)

  abbrev OwnedEntry : RuleKey × SecGroupRule → Type 0
  OwnedEntry (k, r) = (k ≡ key_of r) × OwnedRule r

  rules_by_key-Owned :
      (m : List (RuleKey × SecGroupRule)) (rs : List SecGroupRule)
      → All OwnedEntry m
      → All OwnedRule rs
      → All OwnedEntry (rules_by_key m rs)
  unfolding rules_by_key
  rules_by_key-Owned m [] h k = h
  rules_by_key-Owned m (r ∷ rs) h k =
      rules_by_key-Owned (insert (key_of r) r m) rs
        (All-insert OwnedEntry (key_of r) r m (refl, k.0) h) k.1

  module _ (P : Call → Type 0) (lists : P (list_rules sg_id)) where
    list_owned_rules_ensures : Ensures P (list_owned_rules api sg_id tenant svc) (All OwnedEntry)
    unfolding list_owned_rules
    list_owned_rules_ensures =
        bind_ensures
          (listing_ensures {Q = AllPages (λ r. (log : Log) × InPages r (api.list_rules log sg_id))}
            _ _ lists (λ log. AllPages-of_InPages _ _ (λ r i. (log, i))))
          (λ pages h.
            bind_ensures (lift_ensures _ (collect-OkMeets _ _ pages h))
              (λ rs q. return_ensures _ (rules_by_key-Owned [] rs tt q)))

    pub delete_node_port_rules_ensures :
        ((r : SecGroupRule) → OwnedRule r → P (delete_rule r.id))
        → Ensures P (delete_node_port_rules api sg_id tenant svc) Any
    unfolding delete_node_port_rules
    delete_node_port_rules_ensures deletes =
        if_ensures (is_empty sg_id) (λ _. return_ensures tt tt)
          (λ _. bind_ensures (wrap_rule _ list_owned_rules_ensures) (λ owned q.
            bind_ensures (map_order_ensures api.order) (λ order _.
              for_each_ensures _ (All-range_order OwnedEntry order owned q)
                (λ entry o. wrap_rule _ (request-Any _ _ (deletes entry.1 o.1))))))

  module _ (cidrs : List Bytes) where
    -- The calls that EnsureNodePortRules may make: it deletes rules of the Service that are not
    -- desired, and creates desired ones.
    abbrev pub NodePortCall : Call → Type 0
    NodePortCall (list_rules sg) = sg ≡ sg_id
    NodePortCall (delete_rule id) =
        (r : SecGroupRule) × (r.id ≡ id)
        × OwnedRule r
        × (lookup (key_of r) (build_desired_rules tenant svc cidrs) ≡ none)
    NodePortCall (create_rule opts) =
        (p : ServicePort) × (cidr : Bytes) × In p svc.ports
        × In cidr cidrs
        × ((p.node_port == 0) ≡ false)
        × (opts ≡ record (desired_rule tenant svc (port_key p cidr)) { sec_group_id = sg_id })
    NodePortCall _ = ⊥

    is_none→none : {A : Type 0} (o : Option A) → is_none o ≡ true → o ≡ none
    is_none→none none h = refl
    is_none→none (some a) h = absurd (cc h)

    abbrev in_group : RuleOpts → RuleOpts
    in_group opts = record opts { sec_group_id = sg_id }

    module _ (P : Call → Type 0) (lists : P (list_rules sg_id))
        (deletes : (r : SecGroupRule)
          → OwnedRule r
          → lookup (key_of r) (build_desired_rules tenant svc cidrs) ≡ none
          → P (delete_rule r.id))
        (creates : (p : ServicePort) (cidr : Bytes)
          → In p svc.ports
          → In cidr cidrs
          → (p.node_port == 0) ≡ false
          → (opts : RuleOpts)
          → opts ≡ record (desired_rule tenant svc (port_key p cidr)) { sec_group_id = sg_id }
          → P (create_rule opts)) where
      drop_unwanted_ensures :
          (entry : RuleKey × SecGroupRule)
          → OwnedEntry entry
          → Ensures P (drop_unwanted api (build_desired_rules tenant svc cidrs) entry) Any
      unfolding drop_unwanted
      drop_unwanted_ensures (k, r) o =
          let desired = build_desired_rules tenant svc cidrs in
          if_ensures (is_none (lookup k desired))
            (λ e. wrap_rule _ (
              request-Any _ _ (
                deletes r o.1
                  (ap (λ j. lookup j desired) (sym o.0) ∙ is_none→none (lookup k desired) e))))
            (λ _. return_ensures tt tt)

      create_missing_ensures :
          (existing : List (RuleKey × SecGroupRule)) (entry : RuleKey × RuleOpts)
          → Wanted tenant svc cidrs entry
          → Ensures P (create_missing api sg_id existing entry) Any
      unfolding create_missing
      create_missing_ensures existing (k, opts) (p, cidr, i, j, z, e, f) =
          let same : opts ≡ desired_rule tenant svc (port_key p cidr) =
            f ∙ ap (desired_rule tenant svc) e in
          if_ensures (not (is_none (lookup k existing))) (λ _. return_ensures tt tt)
            (λ _.
              bind_ensures
                (wrap_rule _ (request-Any _ _ (creates p cidr i j z _ (ap in_group same))))
                (λ _ _. return_ensures tt tt))

module _ (api : Api) (sg_id tenant : Bytes) (svc : Service) (P : Call → Type 0)
    (lists : P (list_rules sg_id)) where
  pub ensure_node_port_rules_ensures :
      (cidrs : List Bytes)
      → ((r : SecGroupRule)
          → OwnedRule api sg_id tenant svc r
          → lookup (key_of r) (build_desired_rules tenant svc cidrs) ≡ none
          → P (delete_rule r.id))
      → ((p : ServicePort) (cidr : Bytes)
          → In p svc.ports
          → In cidr cidrs
          → (p.node_port == 0) ≡ false
          → (opts : RuleOpts)
          → opts ≡ record (desired_rule tenant svc (port_key p cidr)) { sec_group_id = sg_id }
          → P (create_rule opts))
      → Ensures P (ensure_node_port_rules api sg_id tenant svc cidrs) Any
  unfolding ensure_node_port_rules
  ensure_node_port_rules_ensures [] deletes creates =
      if_ensures (is_empty sg_id) (λ _. fail_ensures _) (λ _. fail_ensures _)
  ensure_node_port_rules_ensures (cidr ∷ cidrs) deletes creates =
      let all = cidr ∷ cidrs in
      if_ensures (is_empty sg_id) (λ _. fail_ensures _)
        (λ _.
          bind_ensures (wrap_rule _ (list_owned_rules_ensures api sg_id tenant svc P lists))
            (λ owned q. bind_ensures (map_order_ensures api.order) (λ order _.
              bind_ensures
                (for_each_ensures _ (All-range_order _ order owned q)
                  (drop_unwanted_ensures api sg_id tenant svc all P lists deletes creates))
                (λ _ _. bind_ensures (map_order_ensures api.order) (λ order' _.
                  for_each_ensures _
                    (All-range_order _ order' _ (build_desired_rules-Wanted tenant svc all))
                    (create_missing_ensures api sg_id tenant svc all P lists deletes creates
                      owned))))))

module _ (api : Api) (sg_id tenant : Bytes) (svc : Service) where
  -- Whatever the answers are, EnsureNodePortRules deletes only rules of the Service that no port and
  -- CIDR asks for, and creates only rules that a port and a CIDR ask for, in its own group.
  pub ensure_node_port_rules_calls :
      (cidrs : List Bytes)
      → All
          (NodePortCall api sg_id tenant svc cidrs)
          (ensure_node_port_rules api sg_id tenant svc cidrs []).1
  ensure_node_port_rules_calls cidrs =
      calls_meet _ Any (ensure_node_port_rules api sg_id tenant svc cidrs []) (
        (ensure_node_port_rules_ensures api sg_id tenant svc
            (NodePortCall api sg_id tenant svc cidrs) refl cidrs (λ r o e. (r, refl, o, e))
            (λ p c i j z opts e. (p, c, i, j, z, e))).run
          [] tt)
