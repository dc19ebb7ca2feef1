-- ===== src/Controller/KscWatcher.antt =====
-- ksc_watcher.go: a change of a KubernetesSwitchcloud is passed on to the Services of its tenant.
pub mod Relay
use kubernetes_switchcloud.Base.{
  Bool, true, false, not, List, [], Bytes, lit, is_empty, bytes_eq, if◌then◌else◌, String,
}
use kubernetes_switchcloud.Cloud.Types.{Result, ok, err}
use kubernetes_switchcloud.Cloud.Action.{wrapped}
use kubernetes_switchcloud.Multicluster.Session.{QueueCall}
use kubernetes_switchcloud.Multicluster.Manager.{Env, Manager, enqueue_all_for_tenant}
use kubernetes_switchcloud.Controller.ServiceReconciler.{finalizer_name, tenant_namespace}

-- Reconcile of KSCWatcher: the calls on the queue of the tenant's session.
unfoldable pub watch_ksc : Env → Bytes → Bytes → Manager → Result (List QueueCall)
watch_ksc env namespace name m =
    if not (bytes_eq namespace tenant_namespace)
    then ok []
    else if is_empty name
    then ok []
    else elim (enqueue_all_for_tenant env finalizer_name name m) [
      | err e ↦ err (wrapped (lit "enqueueing tenant after KSC change") e)
      | ok calls ↦ ok calls
    ]
