-- ===== src/Multicluster/Session.antt =====
-- session.go: what one Session starts, stops, and puts into its queue.
pub mod Worker
use kubernetes_switchcloud.Base.{
  ℕ, zero, suc, Bool, true, false, not, ◌&&◌, List, [], ◌∷◌, ◌++◌, Option, none, some, Bytes, lit,
  bytes_eq, contains_string, keep_if, if◌then◌else◌, ◌==◌, String,
}
use kubernetes_switchcloud.Cloud.Types.{Service, Error, Result, ok, err}
use kubernetes_switchcloud.Cloud.Action.{new_error, wrapped}

-- Session, with the pass of the manager that built it: sessions are told apart by tenant and pass.
pub record Session : Type 0 where
  pub tenant : Bytes
  pub kubeconfig_hash : Bytes
  pub built_in : ℕ

-- types.NamespacedName, in a reconcile.Request
pub record Request : Type 0 where
  pub namespace : Bytes
  pub name : Bytes

-- The answers of the libraries to one Session: whether the cache synced in time, the Service
-- informer, the registration of its handler, and the Services of the tenant.
pub record Tenants : Type 0 where
  pub wait_for_cache_sync : Session → Bool
  pub get_informer : Session → Result (Unit {0})
  pub add_event_handler : Session → Result (Unit {0})
  pub list_services : Session → Result (List Service)

-- The calls of a workqueue that are made on it.
pub data QueueCall : Type 0 where
  add : Request → QueueCall
  add_rate_limited : Request → QueueCall
  add_after : Request → ℕ → QueueCall
  forget : Request → QueueCall
  done : Request → QueueCall

-- NewSession
abbrev pub new_session : Bytes → Bytes → ℕ → Session
new_session tenant hash pass = record { tenant = tenant; kubeconfig_hash = hash; built_in = pass }

unfoldable pub same_session : Session → Session → Bool
same_session s t =
    bytes_eq s.tenant t.tenant
    && bytes_eq s.kubeconfig_hash t.kubeconfig_hash
    && s.built_in == t.built_in

-- cancel, and the wait for the goroutines of the Session, among those that run.
unfoldable pub cancel : Session → List Session → List Session
cancel s running = keep_if (λ t. not (same_session t s)) running

-- Stop: a second one finds nothing that runs.
unfoldable pub stop : Session → List Session → List Session
unfolding cancel
stop s running = cancel s running

-- Start
unfoldable pub start : Tenants → Session → List Session → Result (Unit {0}) × List Session
unfolding cancel
start tenants s running =
    let started = s ∷ running in
    if not (tenants.wait_for_cache_sync s)
    then (err (new_error (lit "tenant cache failed to sync within 1m30s")), cancel s started)
    else elim (tenants.get_informer s) [
      | err e ↦ (err (wrapped (lit "getting Service informer for tenant") e), cancel s started)
      | ok _ ↦ elim (tenants.add_event_handler s) [
        | err e ↦
            (err (wrapped (lit "registering Service event handler for tenant") e), cancel s started)
        | ok _ ↦ (ok tt, started)
      ]
    ]

abbrev pub request_for : Service → Request
request_for svc = record { namespace = svc.namespace; name = svc.name }

-- hasString is contains_string. The loop of EnqueueAllLBServices over the Services.
unfoldable pub enqueue_services : Bytes → List Service → List QueueCall
enqueue_services finalizer [] = []
enqueue_services finalizer (svc ∷ items) =
    if not (bytes_eq svc.type (lit "LoadBalancer"))
      && not (contains_string svc.finalizers finalizer)
    then enqueue_services finalizer items
    else add (request_for svc) ∷ enqueue_services finalizer items

-- EnqueueAllLBServices
unfoldable pub enqueue_all_lb_services : Tenants → Session → Bytes → Result (List QueueCall)
unfolding enqueue_services
enqueue_all_lb_services tenants s finalizer = elim (tenants.list_services s) [
  | err e ↦ err (wrapped (lit "listing Services for tenant") e)
  | ok items ↦ ok (enqueue_services finalizer items)
]

-- The object of an informer's event.
pub data Event : Type 0 where
  service : Service → Event
  final_state_unknown : Event → Event
  other : Event

-- enqueueFromObject
unfoldable pub enqueue_from_object : Event → List QueueCall
enqueue_from_object (service svc) = add (request_for svc) ∷ []
enqueue_from_object (final_state_unknown (service svc)) = add (request_for svc) ∷ []
enqueue_from_object (final_state_unknown (final_state_unknown e)) = []
enqueue_from_object (final_state_unknown other) = []
enqueue_from_object other = []

-- The calls of processNext on the queue for an item, by what Reconcile returned: the seconds of
-- RequeueAfter, or an error. Done is deferred.
unfoldable pub process_item : Request → Result ℕ → List QueueCall
process_item item (err e) = add_rate_limited item ∷ done item ∷ []
process_item item (ok zero) = forget item ∷ done item ∷ []
process_item item (ok (suc n)) = forget item ∷ add_after item (suc n) ∷ done item ∷ []

-- runWorker: processNext for each item that Get hands out, with what Reconcile returns for it, until
-- Get tells of the shutdown.
unfoldable pub run_worker : List (Option (Request × Result ℕ)) → List QueueCall
unfolding process_item
run_worker [] = []
run_worker (none ∷ gets) = []
run_worker (some (item, r) ∷ gets) = process_item item r ++ run_worker gets
