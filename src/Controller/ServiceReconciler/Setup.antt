-- ===== src/Controller/ServiceReconciler/Setup.antt =====
-- The calls of the part of a pass that sets a Service up.
pub mod Listeners
pub mod Group
use kubernetes_switchcloud.Base.{
  not, ◌≡◌, refl, List, none, some, Bytes, is_empty, contains_string, inl, inr,
}
use kubernetes_switchcloud.Cloud.Types.{
  Api, Call, Log, Service, LoadBalancer, SecGroupRule, Result, ok, err, create_rule, delete_rule,
}
use kubernetes_switchcloud.Cloud.Hoare.{
  Ensures, Any, OkMeets, Returned, Returned-ensures, return_ensures, fail_ensures, request-Any,
  request_ensures, bind_ensures, wrap_rule, if_ensures,
}
use kubernetes_switchcloud.Cloud.AnyResult.{IsRead, lift-Any, listing-Any, any_bind}
use kubernetes_switchcloud.Ksc.{LoadBalancerConfig}
use kubernetes_switchcloud.Openstack.FloatingIp.{find_fip_by_port_id, ensure_floating_ip}
use kubernetes_switchcloud.Openstack.Names.{service_lb_name}
use kubernetes_switchcloud.Openstack.LoadBalancer.Deletion.{LbOfService}
use kubernetes_switchcloud.Openstack.SecurityGroup.Owned.{OwnedRule, ensure_node_port_rules_ensures}
use kubernetes_switchcloud.Controller.ServiceReconciler.{
  public_address, patch_status, provision, fetch_service, set_ingress,
}
use kubernetes_switchcloud.Controller.ServiceReconciler.SetupCall.{
  Refetched, Refetched-if_ok, SetupCall,
}
use kubernetes_switchcloud.Controller.ServiceReconciler.Steps.{
  new_clients-Any, find_first_external_network-Any, resolve_member_subnet-Any, list_worker_ips-Any,
}
use Listeners.{ensure_lb_ensures, sync_listeners_ensures}
use Group.{worker_group_ensures}

module _ (api : Api) (tenant : Bytes) (svc : Service) (cfg : LoadBalancerConfig) (P : Call → Type 0)
    (reads : (c : Call) → IsRead c → P c)
    (writes : (c : Call) → SetupCall api tenant svc cfg c → P c) where
  module _ (lb : LoadBalancer) (own : LbOfService api tenant svc lb) where
    floating_ip_ensures :
        (network subnet : Bytes)
        → Ensures P
            (ensure_floating_ip api lb.vip_port_id network subnet
              (service_lb_name tenant svc.namespace svc.name))
            Any
    unfolding ensure_floating_ip find_fip_by_port_id
    floating_ip_ensures network subnet =
        if_ensures (is_empty lb.vip_port_id) (λ _. fail_ensures _)
          (λ _.
            if_ensures (is_empty network) (λ _. fail_ensures _)
              (λ _.
                any_bind
                  (wrap_rule _ (any_bind (listing-Any _ _ (reads _ tt)) (λ pages. lift-Any _)))
                  (elim [
                    | some fip ↦ return_ensures _ tt
                    | none ↦
                        any_bind (wrap_rule _ (request-Any _ _ (writes _ (lb, own, refl, refl))))
                          (λ created. return_ensures _ tt)
                  ])))

    public_address_ensures : Ensures P (public_address api tenant svc cfg lb) Any
    unfolding public_address
    public_address_ensures =
        any_bind
          (if_ensures (is_empty cfg.floating_network_id)
            (λ _. wrap_rule _ (find_first_external_network-Any api P reads))
            (λ _. return_ensures _ tt))
          (λ network.
            if_ensures (is_empty network) (λ _. return_ensures _ tt)
              (λ _. wrap_rule _ (floating_ip_ensures _ _)))

    patch_status_ensures :
        (vip : Bytes)
        → Returned (public_address api tenant svc cfg lb) vip
        → Ensures P (patch_status api tenant svc vip) Any
    unfolding patch_status fetch_service set_ingress
    patch_status_ensures vip published =
        if_ensures (is_empty vip) (λ _. fail_ensures _)
          (λ _.
            if_ensures (contains_string svc.ingress vip) (λ _. return_ensures tt tt)
              (λ _.
                bind_ensures
                  (wrap_rule _ (
                    request_ensures {Q = Refetched api tenant svc} _ _ (reads _ tt)
                      (λ log. Refetched-if_ok api tenant svc log _ refl)))
                  (λ fresh q. wrap_rule _ (
                    request-Any _ _
                      (writes _ (refl, fresh, q, refl, refl, lb, own, vip, published, refl))))))

  -- Provisioning reads, sets up, and deletes rules of the Service.
  pub provision_ensures :
      ((sg_id : Bytes) (r : SecGroupRule) → OwnedRule api sg_id tenant svc r → P (delete_rule r.id))
      → Ensures P (provision api tenant svc cfg) Any
  unfolding provision
  provision_ensures deletes = any_bind (wrap_rule _ (new_clients-Any api P reads cfg.creds)) (λ _.
      bind_ensures
        (wrap_rule _ (Returned-ensures (resolve_member_subnet-Any api P reads cfg.vip_network_id)))
        (λ subnet resolved.
          bind_ensures (wrap_rule _ (ensure_lb_ensures api tenant svc cfg P reads writes))
            (λ made own.
              if_ensures made.1 (λ _. return_ensures _ tt)
                (λ e.
                  bind_ensures
                    (wrap_rule _
                      (Returned-ensures (list_worker_ips-Any api P reads cfg.vip_network_id)))
                    (λ ips workers.
                      any_bind
                        (wrap_rule _ (
                          sync_listeners_ensures api tenant svc cfg P reads writes made.0 (own e)
                            ips workers.1 subnet resolved.1))
                        (λ syncing.
                          if_ensures syncing (λ _. return_ensures _ tt)
                            (λ _.
                              bind_ensures
                                (Returned-ensures (public_address_ensures made.0 (own e)))
                                (λ address published.
                                  bind_ensures
                                    (worker_group_ensures api tenant svc cfg P reads writes ips
                                      workers.1)
                                    (λ sg_id group.
                                      any_bind
                                        (wrap_rule _ (
                                          ensure_node_port_rules_ensures api sg_id tenant svc P
                                            (reads _ tt) cfg.allowed_cidrs
                                            (λ r o _. deletes sg_id r o)
                                            (λ p c i j z opts o.
                                              writes (create_rule opts)
                                                (inr (sg_id, group, p, c, i, j, z, o)))))
                                        (λ _.
                                          any_bind
                                            (wrap_rule _ (
                                              patch_status_ensures made.0 (own e) address
                                                published.1))
                                            (λ _. return_ensures _ tt)))))))))))
