-- ===== src/Controller/ClusterReconciler.antt =====
-- cluster_controller.go: the finalizer on the HelmRelease of a cluster, and the sweep behind it.
pub mod Release
use kubernetes_switchcloud.Base.{
  not, List, [], ◌∷◌, ◌++◌, Option, none, some, Bytes, lit, is_empty, contains_string,
  if◌then◌else◌,
}
use kubernetes_switchcloud.Cloud.Types.{
  Api, Credentials, HelmRelease, ok, err, get_release, list_releases, patch_release,
}
use kubernetes_switchcloud.Cloud.Action.{M, return, fail, ◌>>=◌, ◌>>◌, request, wrap, try}
use kubernetes_switchcloud.Ksc.{resolve, is_not_found}
use kubernetes_switchcloud.Openstack.Auth.{new_clients}
use kubernetes_switchcloud.Openstack.Sweep.{sweep_cluster_resources}
use kubernetes_switchcloud.Controller.ServiceReconciler.{Requeue, done, remove_string}

-- ClusterFinalizerName
unfoldable pub cluster_finalizer_name : Bytes
cluster_finalizer_name = lit "loadbalancer.switchcloud.aenix.io/cluster-cleanup"

module _ (api : Api) where
  unfoldable pub set_release_finalizers : HelmRelease → List Bytes → M (Unit {0})
  set_release_finalizers hr finalizers =
      request (patch_release hr.namespace hr.name finalizers)
        (λ log. api.patch_release log hr.namespace hr.name finalizers)

  -- dropClusterFinalizer
  unfoldable pub drop_cluster_finalizer : HelmRelease → M Requeue
  unfolding set_release_finalizers
  drop_cluster_finalizer hr =
      if not (contains_string hr.finalizers cluster_finalizer_name) then return done else do
        wrap (lit "removing cluster finalizer from HelmRelease")
            (set_release_finalizers hr (remove_string hr.finalizers cluster_finalizer_name))
        return done

  -- The loop of borrowAnyCreds.
  unfoldable pub borrow_from : List HelmRelease → M (Option Credentials)
  borrow_from [] = return none
  borrow_from (sibling ∷ siblings) =
      let rest = borrow_from siblings in
      if is_empty sibling.app_name then rest else do
        r ← try (resolve api sibling.app_name)
        elim r [
          | err e ↦ rest
          | ok cfg ↦ if is_empty cfg.creds.auth_url then rest else return (some cfg.creds)
        ]

  -- borrowAnyCreds
  unfoldable pub borrow_any_creds : Bytes → M (Option Credentials)
  unfolding borrow_from
  borrow_any_creds namespace = do
    r ← try (request (list_releases namespace) (λ log. api.list_releases log namespace))
    elim r [ err e ↦ return none | ok items ↦ borrow_from items ]

  -- The sweep with the credentials at hand, and the finalizer behind it.
  unfoldable pub sweep_and_drop : HelmRelease → Bytes → Credentials → M Requeue
  sweep_and_drop hr cluster creds = do
    wrap (lit "building OpenStack clients for cluster sweep") (new_clients api creds) >>= λ _. do
      wrap (lit "sweeping cluster resources") (sweep_cluster_resources api cluster)
      drop_cluster_finalizer hr

  -- The pass over a release that is terminating and has the finalizer.
  unfoldable pub finalize : HelmRelease → Bytes → M Requeue
  unfolding sweep_and_drop borrow_any_creds
  finalize hr cluster = do
    r ← try (resolve api cluster)
    elim r [
      | ok cfg ↦ sweep_and_drop hr cluster cfg.creds
      | err e ↦
          if not (is_not_found e)
          then wrap (lit "resolving KSC config during deletion") (fail e)
          else do
            borrowed ← borrow_any_creds hr.namespace
            elim borrowed [
              | none ↦ drop_cluster_finalizer hr
              | some creds ↦ sweep_and_drop hr cluster creds
            ]
    ]

  -- Reconcile
  unfoldable pub reconcile_release : Bytes → Bytes → M Requeue
  unfolding finalize set_release_finalizers
  reconcile_release namespace name = do
    r ← try (request (get_release namespace name) (λ log. api.get_release log namespace name))
    elim r [
      | err e ↦ if e.not_found then return done else wrap (lit "fetching HelmRelease") (fail e)
      | ok hr ↦
          if is_empty hr.app_name
          then return done
          else if not hr.deleting
          then (if contains_string hr.finalizers cluster_finalizer_name then return done else do
            wrap (lit "adding cluster finalizer to HelmRelease")
                (set_release_finalizers hr (hr.finalizers ++ (cluster_finalizer_name ∷ [])))
            return done)
          else if not (contains_string hr.finalizers cluster_finalizer_name)
          then return done
          else finalize hr hr.app_name
    ]
