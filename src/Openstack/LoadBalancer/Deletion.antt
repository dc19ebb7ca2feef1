-- ===== src/Openstack/LoadBalancer/Deletion.antt =====
-- loadbalancer.go: the calls of DeleteLB, and what it means when it reports that nothing is left.
use kubernetes_switchcloud.Base.{true, false, none, some, Bytes, ◌≡◌, bytes_eq, not, not→true}
use kubernetes_switchcloud.Cloud.Types.{
  Api, Call, Log, Service, LoadBalancer, FloatingIp, list_lbs, delete_lb, list_fips, delete_fip,
}
use kubernetes_switchcloud.Cloud.Hoare.{
  Ensures, return_ensures, fail_ensures, lift_ensures, request-Any, listing_ensures, bind_ensures,
  wrap_rule, if_ensures, Returned, Returned-ensures,
}
use kubernetes_switchcloud.Cloud.Pages.{
  AllPages, InPages, AllPages-of_InPages, SomePasses, find_in_pages-OkMeets,
}
use kubernetes_switchcloud.Openstack.Names.{service_lb_name, is_managed}
use kubernetes_switchcloud.Openstack.FloatingIp.Calls.{FipOnPort, delete_floating_ip_ensures}
use kubernetes_switchcloud.Openstack.LoadBalancer.{
  find_lb_by_name, delete_service_lb, status_pending_delete,
}

module _ (api : Api) (tenant : Bytes) (svc : Service) where
  abbrev lb_name : Bytes
  lb_name = service_lb_name tenant svc.namespace svc.name

  -- Octavia has listed the load balancer, and it has the name of the Service's.
  abbrev pub LbOfService : LoadBalancer → Type 0
  LbOfService lb =
      ((log : Log) × InPages lb (api.list_lbs log lb_name)) × (bytes_eq lb.name lb_name ≡ true)

  -- A lookup has found no load balancer of the Service.
  abbrev pub LbGone : Type 0
  LbGone = Returned (find_lb_by_name api lb_name) none

  module _ (P : Call → Type 0) (lists : (name : Bytes) → P (list_lbs name)) where
    pub find_lb_ensures : Ensures P (find_lb_by_name api lb_name) (
        SomePasses
          (λ lb. (log : Log) × InPages lb (api.list_lbs log lb_name))
          (λ lb. bytes_eq lb.name lb_name))
    unfolding find_lb_by_name
    find_lb_ensures =
        bind_ensures
          (listing_ensures
            {Q = AllPages (λ lb. (log : Log) × InPages lb (api.list_lbs log lb_name))} _ _
            (lists lb_name) (λ log. AllPages-of_InPages _ _ (λ lb i. (log, i))))
          (λ pages h. lift_ensures _ (find_in_pages-OkMeets _ _ pages h))

  module _ (P : Call → Type 0) (lists : (name : Bytes) → P (list_lbs name))
      (lists_fips : (port : Bytes) → P (list_fips port))
      (deletes : (lb : LoadBalancer) → LbOfService lb → is_managed lb ≡ true → P (delete_lb lb.id))
      (deletes_fip : (lb : LoadBalancer)
        → LbOfService lb
        → (fip : FloatingIp) → FipOnPort api lb.vip_port_id fip
        → P (delete_fip fip.id)) where
    -- Where DeleteLB reports that nothing is pending, a lookup has found nothing.
    pub delete_service_lb_ensures :
        Ensures P (delete_service_lb api tenant svc) (λ pending. pending ≡ false → LbGone)
    unfolding delete_service_lb
    delete_service_lb_ensures =
        bind_ensures (wrap_rule _ (Returned-ensures (find_lb_ensures P lists))) (elim [
          | none ↦ λ q. return_ensures false (λ _. q.1)
          | some lb ↦ λ q.
              if_ensures (not (is_managed lb)) (λ _. fail_ensures _)
                (λ managed.
                  bind_ensures
                    (wrap_rule _ (
                      delete_floating_ip_ensures api P lb.vip_port_id (lists_fips _)
                        (λ fip on. deletes_fip lb q.0 fip on)))
                    (λ _ _.
                      if_ensures (bytes_eq lb.provisioning_status status_pending_delete)
                        (λ _. return_ensures true (λ e. absurd (cc e)))
                        (λ _.
                          bind_ensures
                            (wrap_rule _ (request-Any _ _ (deletes lb q.0 (not→true _ managed))))
                            (λ _ _. return_ensures true (λ e. absurd (cc e))))))
        ])
