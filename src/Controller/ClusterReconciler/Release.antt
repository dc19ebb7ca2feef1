-- ===== src/Controller/ClusterReconciler/Release.antt =====
-- When a pass over a HelmRelease sweeps, and when it drops the finalizer.
use kubernetes_switchcloud.Base.{
  true, false, not, List, [], ◌∷◌, ◌++◌, none, some, Bytes, is_empty, contains_string, ◌≡◌, refl,
  ◌⊎◌, inl, inr, All, not→true, not→false,
}
use kubernetes_switchcloud.Cloud.Types.{
  Api, Call, Log, Credentials, HelmRelease, LoadBalancer, FloatingIp, SecGroup, Error, Result, ok,
  err, delete_lb, delete_fip, delete_sg, patch_release,
}
use kubernetes_switchcloud.Cloud.Action.{try}
use kubernetes_switchcloud.Cloud.Hoare.{
  Ensures, Any, OkMeets, return_ensures, fail_ensures, request-Any, request_ensures, wrap_rule,
  if_ensures, bind_ensures, try_ensures, Returned, Returned-ensures, calls_meet,
}
use kubernetes_switchcloud.Cloud.AnyResult.{IsRead, try-Any, any_bind}
use kubernetes_switchcloud.Ksc.{resolve, is_not_found}
use kubernetes_switchcloud.Openstack.Names.{cluster_sg_name}
use kubernetes_switchcloud.Openstack.FloatingIp.Calls.{FipOnPort}
use kubernetes_switchcloud.Openstack.Sweep.{sweep_cluster_resources}
use kubernetes_switchcloud.Openstack.Sweep.Cluster.{
  LbListed, SgListed, IsOfCluster, sweep_cluster_resources_ensures,
}
use kubernetes_switchcloud.Controller.ServiceReconciler.{remove_string}
use kubernetes_switchcloud.Controller.ServiceReconciler.Steps.{new_clients-Any, resolve-Any}
use kubernetes_switchcloud.Controller.ClusterReconciler.{
  cluster_finalizer_name, set_release_finalizers, drop_cluster_finalizer, borrow_from,
  borrow_any_creds, sweep_and_drop, finalize, reconcile_release,
}

module _ (api : Api) (ns name : Bytes) where
  abbrev pub FetchedRelease : HelmRelease → Type 0
  FetchedRelease hr = (log : Log) × (api.get_release log ns name ≡ ok hr)

  -- The release is that of a cluster, is being deleted and carries the finalizer.
  abbrev pub Ending : HelmRelease → Type 0
  Ending hr =
      FetchedRelease hr
      × (is_empty hr.app_name ≡ false)
      × (hr.deleting ≡ true)
      × (contains_string hr.finalizers cluster_finalizer_name ≡ true)

  -- The cluster has been swept, or its resource is gone and no release lends its credentials.
  abbrev pub SweptOrLost : HelmRelease → Type 0
  SweptOrLost hr =
      Returned (sweep_cluster_resources api hr.app_name) tt
      ⊎ (((e : Error) × Returned (try (resolve api hr.app_name)) (err e) × (is_not_found e ≡ true))
          × Returned (borrow_any_creds api hr.namespace) none)

  abbrev pub ReleaseEndCall : Call → Type 0
  ReleaseEndCall (patch_release n s fs) =
      (hr : HelmRelease) × (n ≡ hr.namespace)
      × (s ≡ hr.name)
      × ((FetchedRelease hr
            × (is_empty hr.app_name ≡ false)
            × (hr.deleting ≡ false)
            × (fs ≡ hr.finalizers ++ (cluster_finalizer_name ∷ [])))
          ⊎ (Ending hr
              × (fs ≡ remove_string hr.finalizers cluster_finalizer_name)
              × SweptOrLost hr))
  ReleaseEndCall (delete_lb id) =
      (hr : HelmRelease) × Ending hr
      × (lb : LoadBalancer) × (id ≡ lb.id)
      × LbListed api lb
      × IsOfCluster hr.app_name lb.name
  ReleaseEndCall (delete_fip id) =
      (hr : HelmRelease) × Ending hr
      × (lb : LoadBalancer) × LbListed api lb
      × IsOfCluster hr.app_name lb.name
      × (fip : FloatingIp) × (id ≡ fip.id)
      × FipOnPort api lb.vip_port_id fip
  ReleaseEndCall (delete_sg id) =
      (hr : HelmRelease) × Ending hr
      × (sg : SecGroup) × (id ≡ sg.id)
      × SgListed api sg
      × (sg.name ≡ cluster_sg_name hr.app_name)
  ReleaseEndCall _ = ⊥

  abbrev pub ReleaseCall : Call → Type 0
  ReleaseCall c = IsRead c ⊎ ReleaseEndCall c

  reads : (c : Call) → IsRead c → ReleaseCall c
  reads c h = inl h

  borrow_from-Any :
      (siblings : List HelmRelease) → Ensures ReleaseCall (borrow_from api siblings) Any
  unfolding borrow_from
  borrow_from-Any [] = return_ensures _ tt
  borrow_from-Any (sibling ∷ siblings) =
      if_ensures (is_empty sibling.app_name) (λ _. borrow_from-Any siblings)
        (λ _. any_bind (try-Any (resolve-Any api ReleaseCall reads sibling.app_name)) (elim [
          | err e ↦ borrow_from-Any siblings
          | ok cfg ↦
              if_ensures (is_empty cfg.creds.auth_url) (λ _. borrow_from-Any siblings)
                (λ _. return_ensures _ tt)
        ]))

  borrow_any_creds-Any :
      (namespace : Bytes) → Ensures ReleaseCall (borrow_any_creds api namespace) Any
  unfolding borrow_any_creds
  borrow_any_creds-Any namespace =
      any_bind (try-Any (request-Any _ _ (inl tt)))
        (elim [ err e ↦ return_ensures _ tt | ok items ↦ borrow_from-Any items ])

  module _ (hr : HelmRelease) (ending : Ending hr) where
    drop_ensures : SweptOrLost hr → Ensures ReleaseCall (drop_cluster_finalizer api hr) Any
    unfolding drop_cluster_finalizer set_release_finalizers
    drop_ensures swept =
        if_ensures (not (contains_string hr.finalizers cluster_finalizer_name))
          (λ _. return_ensures _ tt)
          (λ _.
            any_bind
              (wrap_rule _ (request-Any _ _ (inr (hr, refl, refl, inr (ending, refl, swept)))))
              (λ _. return_ensures _ tt))

    sweep_and_drop_ensures :
        (creds : Credentials) → Ensures ReleaseCall (sweep_and_drop api hr hr.app_name creds) Any
    unfolding sweep_and_drop
    sweep_and_drop_ensures creds =
        any_bind (wrap_rule _ (new_clients-Any api ReleaseCall reads creds)) (λ _.
          bind_ensures
            (wrap_rule _ (
              Returned-ensures (
                sweep_cluster_resources_ensures api ReleaseCall hr.app_name (λ _. inl tt)
                  (λ _. inl tt) (λ _. inl tt) (λ lb l q. inr (hr, ending, lb, refl, l, q))
                  (λ lb l q fip on. inr (hr, ending, lb, l, q, fip, refl, on))
                  (λ sg l e. inr (hr, ending, sg, refl, l, e)))))
            (λ _ q. drop_ensures (inl q.1)))

    finalize_ensures : Ensures ReleaseCall (finalize api hr hr.app_name) Any
    unfolding finalize
    finalize_ensures =
        bind_ensures (Returned-ensures (try-Any (resolve-Any api ReleaseCall reads hr.app_name)))
          (elim [
            | ok cfg ↦ λ q. sweep_and_drop_ensures cfg.creds
            | err e ↦ λ q.
                if_ensures (not (is_not_found e)) (λ _. wrap_rule _ (fail_ensures _))
                  (λ absent.
                    bind_ensures (Returned-ensures (borrow_any_creds-Any hr.namespace)) (elim [
                      | none ↦ λ b. drop_ensures (inr ((e, q.1, not→true _ absent), b.1))
                      | some creds ↦ λ b. sweep_and_drop_ensures creds
                    ]))
          ])

  FetchedRelease-if_ok :
      (log : Log) (r : Result HelmRelease)
      → api.get_release log ns name ≡ r
      → OkMeets FetchedRelease r
  FetchedRelease-if_ok log (ok hr) e = (log, e)
  FetchedRelease-if_ok log (err x) e = tt

  reconcile_release_ensures : Ensures ReleaseCall (reconcile_release api ns name) Any
  unfolding reconcile_release set_release_finalizers
  reconcile_release_ensures =
      bind_ensures
        (try_ensures {Q = FetchedRelease}
          (request_ensures _ _ (inl tt) (λ log. FetchedRelease-if_ok log _ refl)))
        (elim [
          | err e ↦ λ q.
              if_ensures e.not_found (λ _. return_ensures _ tt) (λ _. wrap_rule _ (fail_ensures _))
          | ok hr ↦ λ q.
              if_ensures (is_empty hr.app_name) (λ _. return_ensures _ tt)
                (λ named.
                  if_ensures (not hr.deleting)
                    (λ stays.
                      if_ensures (contains_string hr.finalizers cluster_finalizer_name)
                        (λ _. return_ensures _ tt)
                        (λ _.
                          any_bind
                            (wrap_rule _ (
                              request-Any _ _
                                (inr (hr, refl, refl, inl (q, named, not→false _ stays, refl)))))
                            (λ _. return_ensures _ tt)))
                    (λ ends.
                      if_ensures (not (contains_string hr.finalizers cluster_finalizer_name))
                        (λ _. return_ensures _ tt)
                        (λ has. finalize_ensures hr (q, named, not→true _ ends, not→true _ has))))
        ])

-- For any answers of the cloud and of the apiserver, each call of one pass over a HelmRelease is a
-- read; or it adds the finalizer to a release of a cluster that was fetched and is not being
-- deleted; or it deletes a listed load balancer or security group whose name is of that cluster, or
-- an address listed on the port of such a load balancer, and then the release that was fetched is
-- being deleted and carries the finalizer; or it takes the finalizer off such a release, and then
-- either the sweep of the cluster has returned without an error, or resolving the configuration has
-- ended with a NotFound error and no other release of the namespace has lent its credentials.
pub reconcile_release_calls :
    (api : Api) (ns name : Bytes)
    → All (ReleaseCall api ns name) (reconcile_release api ns name []).1
reconcile_release_calls api ns name =
    calls_meet (ReleaseCall api ns name) Any (reconcile_release api ns name [])
      ((reconcile_release_ensures api ns name).run [] tt)
