-- ===== src/Controller/ServiceReconciler/Setup/Group.antt =====
-- The calls in a pass that make the cluster's security group, put it on the worker ports and take
-- the default group off.
use kubernetes_switchcloud.Base.{
  not, ◌≡◌, refl, List, none, some, Bytes, is_empty, contains_string, inl, inr, All-of_In, In, map,
}
use kubernetes_switchcloud.Cloud.Types.{Api, Call, Log, Service, SecGroup, Result, ok, err}
use kubernetes_switchcloud.Cloud.Hoare.{
  Ensures, Any, OkMeets, return_ensures, lift_ensures, request-Any, request_ensures, wrap_rule,
  if_ensures, listing_ensures, bind_ensures, for_each_ensures,
}
use kubernetes_switchcloud.Cloud.AnyResult.{IsRead, lift-Any, listing-Any, any_bind}
use kubernetes_switchcloud.Cloud.Pages.{
  AllPages, InPages, AllPages-of_InPages, find_in_pages-OkMeets,
}
use kubernetes_switchcloud.Ksc.{LoadBalancerConfig}
use kubernetes_switchcloud.Openstack.Names.{cluster_sg_name}
use kubernetes_switchcloud.Openstack.PortAttach.Attached.{attach_ensures, detach_ensures}
use kubernetes_switchcloud.Cloud.Types.{update_port}
use kubernetes_switchcloud.Openstack.SecurityGroup.{
  find_sg_by_name, ensure_baseline_rules, create_rule_if_missing, ensure_cluster_security_group,
  baseline_rules,
}
use kubernetes_switchcloud.Controller.ServiceReconciler.{worker_security_group}
use kubernetes_switchcloud.Controller.ServiceReconciler.SetupCall.{
  ClusterGroup, RulesGroup, WorkerIps, SetupCall,
}

module _ (api : Api) (tenant : Bytes) (svc : Service) (cfg : LoadBalancerConfig) (P : Call → Type 0)
    (reads : (c : Call) → IsRead c → P c)
    (writes : (c : Call) → SetupCall api tenant svc cfg c → P c) where
  baseline_rules_ensures :
      (sg_id : Bytes)
      → ClusterGroup api tenant sg_id
      → Ensures P (ensure_baseline_rules api sg_id) Any
  unfolding ensure_baseline_rules create_rule_if_missing
  baseline_rules_ensures sg_id group = any_bind (listing-Any _ _ (reads _ tt)) (λ pages.
      any_bind (wrap_rule _ (lift-Any _)) (λ have.
        for_each_ensures (baseline_rules sg_id)
          (All-of_In (λ o. In o (baseline_rules sg_id)) (baseline_rules sg_id) (λ o i. i))
          (λ opts i.
            if_ensures (contains_string (map (λ r. r.ether_type) have) opts.ether_type)
              (λ _. return_ensures tt tt)
              (λ _.
                any_bind (wrap_rule _ (request-Any _ _ (writes _ (inl (sg_id, group, i)))))
                  (λ _. return_ensures tt tt)))))

  ensure_group_ensures :
      Ensures P (ensure_cluster_security_group api tenant) (ClusterGroup api tenant)
  unfolding ensure_cluster_security_group find_sg_by_name
  ensure_group_ensures =
      let name = cluster_sg_name tenant in
      bind_ensures
        (wrap_rule _ (
          bind_ensures
            (listing_ensures {Q = AllPages (λ sg. (log : Log) × InPages sg (api.list_sgs log name))}
              _ _ (reads _ tt) (λ log. AllPages-of_InPages _ _ (λ sg i. (log, i))))
            (λ pages h. lift_ensures _ (find_in_pages-OkMeets _ _ pages h))))
        (elim [
          | some sg ↦ λ q.
              let group : ClusterGroup api tenant sg.id = (sg, refl, inl q) in
              any_bind (wrap_rule _ (baseline_rules_ensures sg.id group))
                (λ _. return_ensures _ group)
          | none ↦ λ q.
              bind_ensures
                (wrap_rule _ (
                  request_ensures {Q = λ sg. ClusterGroup api tenant sg.id} _ _ (writes _ refl)
                    (λ log. created log _ _ refl)))
                (λ sg group.
                  any_bind (wrap_rule _ (baseline_rules_ensures sg.id group))
                    (λ _. return_ensures _ group))
        ])
    where
      created :
          (log : Log) (description : Bytes) (r : Result SecGroup)
          → api.create_sg log (cluster_sg_name tenant) description ≡ r
          → OkMeets (λ sg. ClusterGroup api tenant sg.id) r
      created log description (ok sg) e = (sg, refl, inr (log, description, e))
      created log description (err x) e = tt

  module _ (ips : List Bytes) (workers : WorkerIps api tenant svc cfg ips) where
    pub worker_group_ensures :
        Ensures P (worker_security_group api tenant cfg ips) (RulesGroup api tenant svc cfg)
    unfolding worker_security_group
    worker_group_ensures =
        if_ensures (not (is_empty cfg.worker_security_group_id)) (λ _. return_ensures _ (inl refl))
          (λ _. bind_ensures (wrap_rule _ ensure_group_ensures) (λ sg_id group.
            any_bind
              (wrap_rule _ (
                attach_ensures api cfg.vip_network_id ips sg_id P (λ _ _ _. reads _ tt)
                  (λ id sgs h. writes (update_port id sgs) (ips, workers, inl (sg_id, group, h)))))
              (λ _.
                any_bind
                  (wrap_rule _ (
                    detach_ensures api cfg.vip_network_id ips P (λ _ _ _. reads _ tt) (reads _ tt)
                      (λ id sgs h. writes (update_port id sgs) (ips, workers, inr h))))
                  (λ _. return_ensures _ (inr group)))))
