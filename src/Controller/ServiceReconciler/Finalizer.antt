-- ===== src/Controller/ServiceReconciler/Finalizer.antt =====
-- When a pass creates, when it deletes, and when it drops the finalizer.
use kubernetes_switchcloud.Base.{
  Bool, true, false, not, ◌&&◌, ◌||◌, [], Bytes, is_empty, ◌≡◌, refl, inl, inr, All, not→true,
  not→false,
}
use kubernetes_switchcloud.Cloud.Types.{Api, Call, Log, Service, Result, ok, err}
use kubernetes_switchcloud.Cloud.Action.{try}
use kubernetes_switchcloud.Cloud.Hoare.{
  Ensures, Any, OkMeets, return_ensures, fail_ensures, request-Any, request_ensures, wrap_rule,
  if_ensures, bind_ensures, try_ensures, Returned, Returned-ensures, calls_meet,
}
use kubernetes_switchcloud.Cloud.AnyResult.{IsRead, try-Any, any_bind}
use kubernetes_switchcloud.Ksc.{LoadBalancerConfig, resolve, is_not_found}
use kubernetes_switchcloud.Openstack.LoadBalancer.Deletion.{LbGone, delete_service_lb_ensures}
use kubernetes_switchcloud.Openstack.SecurityGroup.Owned.{delete_node_port_rules_ensures}
use kubernetes_switchcloud.Controller.ServiceReconciler.{
  is_load_balancer, has_finalizer, no_ingress, fetch_service, set_ingress, set_finalizers,
  drop_finalizer, is_helm_release_deleting, resolve_cleanup_sg_id, clear_status_ingress,
  delete_rules_if, cleanup, terminate, reconcile_live, reconcile_claimed, reconcile,
}
use kubernetes_switchcloud.Controller.ServiceReconciler.Steps.{
  new_clients-Any, resolve-Any, lookup_cluster_security_group-Any,
}
use kubernetes_switchcloud.Controller.ServiceReconciler.SetupCall.{Refetched, Refetched-if_ok}
use kubernetes_switchcloud.Controller.ServiceReconciler.Setup.{provision_ensures}
use kubernetes_switchcloud.Controller.ServiceReconciler.PassCall.{Fetched, Live, MayDrop, PassCall}

both_and_not : (a b c : Bool) → (not (a && b) || c) ≡ false → (a ≡ true) × (b ≡ true) × (c ≡ false)
both_and_not true true false e = (refl, refl, refl)
both_and_not true true true e = absurd (cc e)
both_and_not true false c e = absurd (cc e)
both_and_not false b c e = absurd (cc e)

module _ (api : Api) (tenant ns name : Bytes) where
  reads : (c : Call) → IsRead c → PassCall api tenant ns name c
  reads c h = inl h

  is_deleting-Any : Ensures (PassCall api tenant ns name) (is_helm_release_deleting api tenant) Any
  unfolding is_helm_release_deleting
  is_deleting-Any = any_bind (try-Any (request-Any _ _ (inl tt))) (elim [
    | ok hr ↦ return_ensures _ tt
    | err e ↦ if_ensures e.not_found (λ _. return_ensures _ tt) (λ _. wrap_rule _ (fail_ensures _))
  ])

  module _ (svc : Service) (f : Fetched api tenant ns name svc) where
    drop_finalizer_ensures :
        MayDrop api tenant ns name svc
        → Ensures (PassCall api tenant ns name) (drop_finalizer api tenant svc) Any
    unfolding drop_finalizer set_finalizers
    drop_finalizer_ensures may =
        if_ensures (not (has_finalizer svc)) (λ _. return_ensures _ tt)
          (λ _.
            any_bind
              (wrap_rule _
                (request-Any _ _ (inr (inr (refl, svc, f, refl, refl, inr (refl, may))))))
              (λ _. return_ensures _ tt))

    clear_status_ingress_ensures :
        LbGone api tenant svc
        → Ensures (PassCall api tenant ns name) (clear_status_ingress api tenant svc) Any
    unfolding clear_status_ingress fetch_service set_ingress
    clear_status_ingress_ensures gone =
        if_ensures (no_ingress svc.ingress) (λ _. return_ensures tt tt)
          (λ _.
            bind_ensures
              (try_ensures (
                request_ensures {Q = Refetched api tenant svc} _ _ (inl tt)
                  (λ log. Refetched-if_ok api tenant svc log _ refl)))
              (elim [
                | err e ↦ λ q.
                    if_ensures e.not_found (λ _. return_ensures tt tt)
                      (λ _. wrap_rule _ (fail_ensures _))
                | ok fresh ↦ λ q.
                    if_ensures (no_ingress fresh.ingress) (λ _. return_ensures tt tt)
                      (λ _. wrap_rule _ (
                        request-Any _ _
                          (inr (inr (refl, refl, svc, f, gone, fresh, q, refl, refl)))))
              ]))

    delete_rules_ensures :
        (sg_id : Bytes)
        → Ensures (PassCall api tenant ns name) (delete_rules_if api tenant sg_id svc) Any
    delete_rules_ensures sg_id =
        if_ensures (is_empty sg_id) (λ _. return_ensures tt tt)
          (λ _. wrap_rule _ (
            delete_node_port_rules_ensures api sg_id tenant svc (PassCall api tenant ns name)
              (inl tt) (λ r o. inr (inr (svc, f, sg_id, r, refl, o)))))

    cleanup_ensures :
        (cfg : LoadBalancerConfig)
        → Ensures (PassCall api tenant ns name) (cleanup api tenant svc cfg) Any
    unfolding cleanup resolve_cleanup_sg_id
    cleanup_ensures cfg =
        if_ensures (not (has_finalizer svc)) (λ _. return_ensures _ tt)
          (λ _.
            any_bind
              (wrap_rule _ (new_clients-Any api (PassCall api tenant ns name) reads cfg.creds))
              (λ _.
                any_bind
                  (wrap_rule _ (
                    if_ensures (not (is_empty cfg.worker_security_group_id))
                      (λ _. return_ensures _ tt)
                      (λ _.
                        lookup_cluster_security_group-Any api (PassCall api tenant ns name) reads
                          tenant)))
                  (λ sg_id. any_bind (delete_rules_ensures sg_id) (λ _.
                    bind_ensures
                      (wrap_rule _ (
                        delete_service_lb_ensures api tenant svc (PassCall api tenant ns name)
                          (λ _. inl tt) (λ _. inl tt)
                          (λ lb of_svc managed. inr (inr (svc, f, lb, refl, of_svc, managed)))
                          (λ lb of_svc fip on. inr (inr (svc, f, lb, of_svc, fip, refl, on)))))
                      (λ pending gone.
                        if_ensures pending (λ _. return_ensures _ tt)
                          (λ e.
                            any_bind (wrap_rule _ (clear_status_ingress_ensures (gone e)))
                              (λ _. drop_finalizer_ensures (inl (gone e)))))))))

    terminate_ensures :
        (cfg : LoadBalancerConfig)
        → Returned (is_helm_release_deleting api tenant) true
        → Ensures (PassCall api tenant ns name) (terminate api tenant svc cfg) Any
    unfolding terminate
    terminate_ensures cfg deleting =
        let drop = drop_finalizer_ensures (inr (inl deleting)) in
        if_ensures (not (is_empty cfg.worker_security_group_id) && has_finalizer svc)
          (λ _.
            any_bind (try-Any (new_clients-Any api (PassCall api tenant ns name) reads cfg.creds))
              (elim [
                | err e ↦ drop
                | ok _ ↦
                    any_bind
                      (try-Any (
                        delete_node_port_rules_ensures api cfg.worker_security_group_id tenant svc
                          (PassCall api tenant ns name) (inl tt)
                          (λ r o. inr (inr (svc, f, cfg.worker_security_group_id, r, refl, o)))))
                      (λ _. drop)
              ]))
          (λ _. drop)

    reconcile_live_ensures :
        (cfg : LoadBalancerConfig)
        → Returned (try (resolve api tenant)) (ok cfg)
        → Returned (is_helm_release_deleting api tenant) false
        → Ensures (PassCall api tenant ns name) (reconcile_live api tenant svc cfg) Any
    unfolding reconcile_live set_finalizers
    reconcile_live_ensures cfg resolved kept =
        let managed = is_load_balancer svc && cfg.enabled in
        if_ensures
          (not managed
            && (not (is_empty cfg.misconfigured_reason)
                && (is_load_balancer svc && not (has_finalizer svc))))
          (λ _. return_ensures _ tt)
          (λ _.
            if_ensures (not managed || svc.deleting) (λ _. cleanup_ensures cfg)
              (λ e.
                let (lb, on, stays) =
                  both_and_not (is_load_balancer svc) cfg.enabled svc.deleting e in
                let live : Live api tenant ns name svc cfg = (lb, stays, resolved, on, kept) in
                if_ensures (not (has_finalizer svc))
                  (λ lacks.
                    any_bind
                      (wrap_rule _ (
                        request-Any _ _ (
                          inr (
                            inr (
                              refl,
                              svc,
                              f,
                              refl,
                              refl,
                              inl (refl, not→false _ lacks, (cfg, live)),
                            )))))
                      (λ _. return_ensures _ tt))
                  (λ has.
                    provision_ensures api tenant svc cfg (PassCall api tenant ns name) reads
                      (λ c set. inr (inl (svc, cfg, f, live, not→true _ has, set)))
                      (λ sg_id r o. inr (inr (svc, f, sg_id, r, refl, o))))))

    reconcile_claimed_ensures :
        Ensures (PassCall api tenant ns name) (reconcile_claimed api tenant svc) Any
    unfolding reconcile_claimed
    reconcile_claimed_ensures =
        bind_ensures
          (Returned-ensures (try-Any (resolve-Any api (PassCall api tenant ns name) reads tenant)))
          (elim [
            | err e ↦ λ q.
                if_ensures (is_not_found e)
                  (λ absent. drop_finalizer_ensures (inr (inr (e, q.1, absent))))
                  (λ _. wrap_rule _ (fail_ensures _))
            | ok cfg ↦ λ q. bind_ensures (wrap_rule _ (Returned-ensures is_deleting-Any)) (elim [
              | true ↦ λ d. terminate_ensures cfg d.1
              | false ↦ λ d. reconcile_live_ensures cfg q.1 d.1
            ])
          ])

  Fetched-if_ok :
      (log : Log) (r : Result Service)
      → api.get_service log tenant ns name ≡ r
      → OkMeets (Fetched api tenant ns name) r
  Fetched-if_ok log (ok svc) e = (log, e)
  Fetched-if_ok log (err x) e = tt

  reconcile_ensures : Ensures (PassCall api tenant ns name) (reconcile api tenant ns name) Any
  unfolding reconcile fetch_service
  reconcile_ensures =
      bind_ensures
        (try_ensures {Q = Fetched api tenant ns name}
          (request_ensures _ _ (inl tt) (λ log. Fetched-if_ok log _ refl)))
        (elim [
          | err e ↦ λ q.
              if_ensures e.not_found (λ _. return_ensures _ tt) (λ _. wrap_rule _ (fail_ensures _))
          | ok svc ↦ λ q.
              if_ensures (not (is_load_balancer svc) && not (has_finalizer svc))
                (λ _. return_ensures _ tt) (λ _. reconcile_claimed_ensures svc q)
        ])

-- For any answers of the cloud and of the apiservers, each call of one pass over a Service is a
-- read; or it sets something up, and then the Service that was fetched is of type LoadBalancer, not
-- being deleted, carries the finalizer, and its cluster has the feature enabled and a HelmRelease
-- that is not being deleted, and the call's arguments are that Service's: a load balancer is created
-- under its name; a listener, a pool and members are changed on the listed load balancer of that
-- name, for a port of the Service and with the listed worker addresses; a listener is deleted if it
-- was listed on that load balancer and has the name of no port; a floating address is created for
-- that load balancer's port; a group is created under the cluster's name; a rule is a baseline rule
-- of the cluster's group, or one that a port and an allowed CIDR ask for, in the configured or the
-- cluster's group; a port that was listed for a worker gets the cluster's group or loses the default
-- one; the address of the load balancer goes to the status of the Service as it was fetched again.
-- Or it deletes a load balancer, an address or a rule that was listed as that Service's; or it
-- clears the status of the Service, as it was fetched again, once a lookup has found no load
-- balancer of it; or it adds the finalizer to a Service of the above kind that lacks it; or it takes
-- the finalizer off, and then a lookup has found no load balancer of the Service, or the HelmRelease
-- has been found missing or being deleted, or resolving the configuration has ended with a NotFound
-- error.
pub reconcile_calls :
    (api : Api) (tenant ns name : Bytes)
    → All (PassCall api tenant ns name) (reconcile api tenant ns name []).1
reconcile_calls api tenant ns name =
    calls_meet (PassCall api tenant ns name) Any (reconcile api tenant ns name [])
      ((reconcile_ensures api tenant ns name).run [] tt)
