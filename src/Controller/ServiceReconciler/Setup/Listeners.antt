-- ===== src/Controller/ServiceReconciler/Setup/Listeners.antt =====
-- The calls of EnsureLB and of SyncListenersAndMembers in a pass.
use kubernetes_switchcloud.Base.{
  Bool, true, false, not, ◌≡◌, refl, sym, ap, subst, List, [], ◌∷◌, none, some, Bytes, is_empty,
  bytes_eq, contains_string, lookup, lookup-All, insert, bytes_key, map, Option-cases, inl, inr,
  All, All-of_In, All-insert, All-range_order, In, ◌==◌, Bool-cases, lit,
}
use kubernetes_switchcloud.Cloud.Types.{
  Api, Call, Log, Service, LoadBalancer, Listener, Pool, ServicePort, Result, ok, err,
}
use kubernetes_switchcloud.Cloud.Hoare.{
  Ensures, Any, OkMeets, Returned, return_ensures, fail_ensures, lift_ensures, request-Any,
  wrap_rule, if_ensures, listing_ensures, bind_ensures, map_order_ensures,
}
use kubernetes_switchcloud.Cloud.AnyResult.{IsRead, lift-Any, listing-Any, any_bind}
use kubernetes_switchcloud.Cloud.Pages.{
  AllPages, InPages, AllPages-of_InPages, find_in_pages-OkMeets, collect-OkMeets,
}
use kubernetes_switchcloud.Ksc.{LoadBalancerConfig}
use kubernetes_switchcloud.Openstack.LoadBalancer.{
  ensure_lb, find_pool_for_listener, ensure_pool, sync_members, drift, create_listener_for,
  sync_ports, drop_stale, sync_listeners_and_members, listener_name, by_name_onto, desired_ports,
  status_active, status_error,
}
use kubernetes_switchcloud.Openstack.LoadBalancer.Deletion.{LbOfService, find_lb_ensures}
use kubernetes_switchcloud.Openstack.Network.{resolve_member_subnet}
use kubernetes_switchcloud.Controller.ServiceReconciler.SetupCall.{
  ListenerOf, PoolOf, ListenerFor, WorkerIps, SetupCall,
}

-- The ports that are synced are those of the Service.
desired_ports-OkMeets : (ps : List ServicePort) → OkMeets (λ qs. qs ≡ ps) (desired_ports ps)
unfolding desired_ports
desired_ports-OkMeets [] = refl
desired_ports-OkMeets (p ∷ ps) =
    elim (Bool-cases (not (contains_string (lit "TCP" ∷ lit "UDP" ∷ lit "SCTP" ∷ []) p.protocol))) [
      | inl e ↦ rw (e, OkMeets, desired_ports) tt
      | inr e ↦ elim (Bool-cases (p.node_port == 0)) [
        | inl f ↦ rw (e, f, OkMeets, desired_ports) tt
        | inr f ↦ go e f (desired_ports ps) refl (desired_ports-OkMeets ps)
      ]
    ]
  where
    go :
        not (contains_string (lit "TCP" ∷ lit "UDP" ∷ lit "SCTP" ∷ []) p.protocol) ≡ false
        → (p.node_port == 0) ≡ false
        → (r : Result (List ServicePort)) → desired_ports ps ≡ r
        → OkMeets (λ qs. qs ≡ ps) r
        → OkMeets (λ qs. qs ≡ p ∷ ps) (desired_ports (p ∷ ps))
    go e f (ok qs) q h = rw (e, f, q, OkMeets, desired_ports) (ap (◌∷◌ p) h)
    go e f (err x) q h = rw (e, f, q, OkMeets, desired_ports) tt

module _ (api : Api) (tenant : Bytes) (svc : Service) (cfg : LoadBalancerConfig) (P : Call → Type 0)
    (reads : (c : Call) → IsRead c → P c)
    (writes : (c : Call) → SetupCall api tenant svc cfg c → P c) where
  -- A load balancer that is not pending is the listed one.
  pub ensure_lb_ensures :
      Ensures P
        (ensure_lb api tenant svc cfg.vip_network_id cfg.provider_driver)
        (λ made. made.1 ≡ false → LbOfService api tenant svc made.0)
  unfolding ensure_lb
  ensure_lb_ensures =
      if_ensures (is_empty cfg.vip_network_id) (λ _. fail_ensures _)
        (λ _.
          bind_ensures (wrap_rule _ (find_lb_ensures api tenant svc P (λ _. reads _ tt))) (elim [
            | some lb ↦ λ q.
                if_ensures (bytes_eq lb.provisioning_status status_active)
                  (λ _. return_ensures _ (λ _. q))
                  (λ _.
                    if_ensures (bytes_eq lb.provisioning_status status_error) (λ _. fail_ensures _)
                      (λ _. return_ensures _ (λ e. absurd (cc e))))
            | none ↦ λ q.
                any_bind (wrap_rule _ (request-Any _ _ (writes _ (refl, refl))))
                  (λ lb. return_ensures _ (λ e. absurd (cc e)))
          ]))

  module _ (lb : LoadBalancer) (own : LbOfService api tenant svc lb) where
    abbrev OwnPool : Listener → Pool × Bool → Type 0
    OwnPool l (pool, made) = made ≡ false → PoolOf api lb.id l.id pool

    ensure_pool_ensures :
        (l : Listener) (p : ServicePort)
        → ListenerFor api tenant svc cfg lb l p
        → Ensures P (ensure_pool api lb.id l.id p) (OwnPool l)
    unfolding ensure_pool find_pool_for_listener
    ensure_pool_ensures l p h =
        bind_ensures
          (bind_ensures
            (listing_ensures
              {Q = AllPages (λ pool. (log : Log) × InPages pool (api.list_pools log lb.id))} _ _
              (reads _ tt) (λ log. AllPages-of_InPages _ _ (λ pool i. (log, i))))
            (λ pages h. lift_ensures _ (find_in_pages-OkMeets _ _ pages h)))
          (elim [
            | some pool ↦ λ q. return_ensures _ (λ _. q)
            | none ↦ λ q.
                any_bind (wrap_rule _ (request-Any _ _ (writes _ (lb, l, p, h, refl, refl))))
                  (λ out. return_ensures _ (λ e. absurd (cc e)))
          ])

    module _ (ips : List Bytes) (workers : WorkerIps api tenant svc cfg ips) (subnet : Bytes)
        (resolved : Returned (resolve_member_subnet api cfg.vip_network_id) subnet) where
      sync_members_ensures :
          (l : Listener) (p : ServicePort) (pool : Pool)
          → ListenerFor api tenant svc cfg lb l p
          → PoolOf api lb.id l.id pool
          → Ensures P (sync_members api pool.id p.node_port ips subnet) Any
      unfolding sync_members
      sync_members_ensures l p pool h q = any_bind (listing-Any _ _ (reads _ tt)) (λ pages.
          any_bind (wrap_rule _ (lift-Any _)) (λ existing.
            if_ensures (not (drift existing p.node_port ips subnet)) (λ _. return_ensures _ tt)
              (λ _.
                any_bind
                  (wrap_rule _ (
                    request-Any _ _ (
                      writes _ (lb, l, p, h, pool, refl, q, ips, workers, subnet, resolved, refl))))
                  (λ _. return_ensures _ tt))))

      -- The listener under a name has it, and is one of the load balancer.
      abbrev Named : Bytes × Listener → Type 0
      Named (name, l) = (l.name ≡ name) × ListenerOf api lb.id l

      by_name_onto-Named :
          (m : List (Bytes × Listener)) (ls : List Listener)
          → All Named m
          → All (λ l. ListenerOf api lb.id l × (true ≡ true)) ls
          → All Named (by_name_onto m ls)
      unfolding by_name_onto
      by_name_onto-Named m [] h k = h
      by_name_onto-Named m (l ∷ ls) h k =
          by_name_onto-Named (insert l.name l m) ls (All-insert Named l.name l m (refl, k.0.0) h)
            k.1

      sync_ports_ensures :
          (by_name : List (Bytes × Listener)) (ps : List ServicePort)
          → All Named by_name
          → All (λ p. In p svc.ports) ps
          → Ensures P (sync_ports api lb.id by_name ips subnet ps) Any
      unfolding sync_ports create_listener_for
      sync_ports_ensures by_name [] named i = return_ensures _ tt
      sync_ports_ensures by_name (p ∷ ps) named i =
          let rest = sync_ports_ensures by_name ps named i.1 in
          elim (Option-cases (lookup (listener_name p) by_name)) [
            | inl e ↦
                rw (e, sync_ports)
                  (any_bind (wrap_rule _ (request-Any _ _ (writes _ (lb, own, p, i.0, refl))))
                    (λ _. return_ensures _ tt))
            | inr (l, e) ↦
                let (n, of) = lookup-All Named (listener_name p) l by_name named e in
                let h : ListenerFor api tenant svc cfg lb l p = (own, of, i.0, n) in
                rw (e, sync_ports)
                  (bind_ensures (wrap_rule _ (ensure_pool_ensures l p h)) (λ made q.
                    if_ensures made.1 (λ _. return_ensures _ tt)
                      (λ old.
                        any_bind (wrap_rule _ (sync_members_ensures l p made.0 h (q old)))
                          (λ changed. if_ensures changed (λ _. return_ensures _ tt) (λ _. rest)))))
          ]

      drop_stale_ensures :
          (listeners : List (Bytes × Listener))
          → All Named listeners
          → Ensures P (drop_stale api (map listener_name svc.ports) listeners) Any
      unfolding drop_stale
      drop_stale_ensures [] h = return_ensures _ tt
      drop_stale_ensures ((name, l) ∷ rest) h =
          if_ensures (contains_string (map listener_name svc.ports) name)
            (λ _. drop_stale_ensures rest h.1)
            (λ e.
              any_bind
                (wrap_rule _ (request-Any _ _ (writes _ (lb, own, l, refl, h.0.1, rw h.0.0 e))))
                (λ _. return_ensures _ tt))

      pub sync_listeners_ensures : Ensures P (sync_listeners_and_members api lb svc ips subnet) Any
      unfolding sync_listeners_and_members
      sync_listeners_ensures =
          if_ensures (not (bytes_eq lb.provisioning_status status_active))
            (λ _. return_ensures _ tt)
            (λ _. bind_ensures (lift_ensures _ (desired_ports-OkMeets svc.ports)) (λ ports same.
              bind_ensures
                (listing_ensures {Q = AllPages (ListenerOf api lb.id)} _ _ (reads _ tt)
                  (λ log. AllPages-of_InPages (ListenerOf api lb.id) _ (λ l i. (log, i))))
                (λ pages h.
                  bind_ensures
                    (wrap_rule _
                      (lift_ensures _ (collect-OkMeets (ListenerOf api lb.id) (λ l. true) pages h)))
                    (λ existing q.
                      let named = by_name_onto-Named [] existing tt q in
                      let own_ports =
                        subst (λ ps. All (λ p. In p svc.ports) ps) (sym same)
                          (All-of_In (λ p. In p svc.ports) svc.ports (λ p i. i)) in
                      any_bind (sync_ports_ensures (by_name_onto [] existing) ports named own_ports)
                        (λ pending.
                          if_ensures pending (λ _. return_ensures _ tt)
                            (λ _. any_bind (map_order_ensures api.order) (λ order.
                              rw same
                                (drop_stale_ensures _ (All-range_order Named order _ named)))))))))
