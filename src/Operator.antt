-- ===== src/Operator.antt =====
-- loadbalancer-controller/cmd/main.go: one round of the orphan sweeper.
pub mod Safety
use kubernetes_switchcloud.Base.{
  ℕ, Bool, true, false, not, ◌||◌, List, [], ◌∷◌, ◌++◌, Option, none, some, Bytes, lit, is_empty,
  contains_string, has_prefix, has_suffix, trim_prefix, trim_suffix, range_order, if◌then◌else◌,
  String,
}
use kubernetes_switchcloud.Cloud.Types.{
  Api, Call, Log, HelmRelease, Secret, Service, Error, Result, ok, err, list_releases, get_service,
  list_secrets, delete_secret,
}
use kubernetes_switchcloud.Cloud.Action.{
  M, return, fail, ◌>>=◌, ◌>>◌, request, wrap, try, for_each, map_order,
}
use kubernetes_switchcloud.Ksc.{resolve}
use kubernetes_switchcloud.Multicluster.{kubeconfig_name_prefix, kubeconfig_suffix}
use kubernetes_switchcloud.Multicluster.Session.{Session}
use kubernetes_switchcloud.Multicluster.Manager.{Manager, tenant_client}
use kubernetes_switchcloud.Openstack.Auth.{new_clients}
use kubernetes_switchcloud.Openstack.Sweep.{ServiceExists, sweep_orphans, sweep_orphan_nova_servers}
use kubernetes_switchcloud.Controller.ServiceReconciler.{tenant_namespace}

-- The loop of listKnownClustersFromHRs over the releases; the map is the list of its keys.
unfoldable pub known_from : List HelmRelease → List Bytes → List Bytes
known_from [] known = known
known_from (hr ∷ items) known = known_from items (
    if hr.deleting || is_empty hr.app_name || contains_string known hr.app_name
    then known
    else known ++ (hr.app_name ∷ []))

abbrev pub has_none : List Bytes → Bool
has_none [] = true
has_none (x ∷ xs) = false

abbrev pub first_of : List Bytes → Bytes
first_of [] = []
first_of (x ∷ xs) = x

module _ (api : Api) where
  -- listKnownClustersFromHRs
  unfoldable pub list_known_clusters : M (List Bytes)
  unfolding known_from
  list_known_clusters = do
    items ←
        wrap (lit "listing KSC HelmReleases")
          (request (list_releases tenant_namespace) (λ log. api.list_releases log tenant_namespace))
    return (known_from items [])

  -- The round of sweepOrphanKubeconfigSecrets for one Secret.
  unfoldable pub sweep_secret : List Bytes → Secret → M (Unit {0})
  sweep_secret known s =
      if not (has_prefix s.name kubeconfig_name_prefix) || not (has_suffix s.name kubeconfig_suffix)
      then return tt
      else (let cluster =
            trim_suffix (trim_prefix s.name kubeconfig_name_prefix) kubeconfig_suffix in
          if is_empty cluster
          then return tt
          else if contains_string known cluster
          then return tt
          else (do
            r ← try (
                request (delete_secret s.namespace s.name)
                  (λ log. api.delete_secret log s.namespace s.name))
            elim r [
              | ok _ ↦ return tt
              | err e ↦
                  if not e.not_found
                  then wrap (lit "deleting orphan kubeconfig secret " ++ s.name) (fail e)
                  else return tt
            ]))

  -- sweepOrphanKubeconfigSecrets
  unfoldable pub sweep_orphan_kubeconfig_secrets : List Bytes → M (Unit {0})
  unfolding sweep_secret
  sweep_orphan_kubeconfig_secrets known = do
    items ←
        wrap (lit "listing tenant-root secrets")
          (request (list_secrets tenant_namespace) (λ log. api.list_secrets log tenant_namespace))
    for_each (sweep_secret known) items

  -- serviceExists of runOrphanSweeper, with the tenant's session, if it has one: without one the
  -- Service counts as existing.
  unfoldable pub ask_session : Bytes → Bytes → Bytes → Option Session → M Bool
  ask_session cluster namespace name none = return true
  ask_session cluster namespace name (some sess) = do
    r ← try (
        request (get_service cluster namespace name)
          (λ log. api.get_service log cluster namespace name))
    elim r [ ok svc ↦ return true | err e ↦ if e.not_found then return false else fail e ]

  -- serviceExists, with the manager of the sessions as it is at a log.
  unfoldable pub service_exists : (Log → Manager) → ServiceExists
  unfolding ask_session
  service_exists manager cluster namespace name log =
      ask_session cluster namespace name (tenant_client cluster (manager log)) log

  -- The body of the loop of runOrphanSweeper, behind the tick; what it logs as an error is its
  -- error. One of the known clusters lends its credentials, whichever the range gives first.
  unfoldable pub sweep_round : (Log → Manager) → M (Unit {0})
  unfolding list_known_clusters service_exists sweep_orphan_kubeconfig_secrets
  sweep_round manager = do
    known ← list_known_clusters
    if has_none known then return tt else do
      order ← map_order api.order
      cfg ← resolve api (first_of (range_order order known))
      if is_empty cfg.creds.auth_url then return tt else do
        has_compute ← new_clients api cfg.creds
        sweep_orphan_nova_servers api has_compute known
        sweep_orphans api known (some (service_exists manager))
        sweep_orphan_kubeconfig_secrets known
