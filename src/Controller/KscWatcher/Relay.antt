-- ===== src/Controller/KscWatcher/Relay.antt =====
-- ksc_watcher.go, session.go and service_controller.go together: what an event puts into the queue,
-- beside what a pass over a Service would do.
use kubernetes_switchcloud.Base.{
  Bool, true, false, not, ◌&&◌, List, [], ◌∷◌, Bytes, is_empty, bytes_eq_refl, bytes_key, lookup,
  some, ◌≡◌, refl, ◌⊎◌, inl, inr, In, here, there, All, All-map, arith, Bool-cases, ap, not→true,
}
use kubernetes_switchcloud.Cloud.Types.{Api, Log, Service, ok, get_service}
use kubernetes_switchcloud.Cloud.Action.{◌>>=◌, request, try}
use kubernetes_switchcloud.Multicluster.Session.{
  Session, QueueCall, add, request_for, enqueue_services, enqueue_all_lb_services,
}
use kubernetes_switchcloud.Multicluster.Manager.{Env, Manager, enqueue_all_for_tenant}
use kubernetes_switchcloud.Controller.ServiceReconciler.{
  finalizer_name, type_load_balancer, tenant_namespace, is_load_balancer, has_finalizer, done,
  fetch_service, reconcile,
}
use kubernetes_switchcloud.Controller.KscWatcher.{watch_ksc}

-- The Service is one that a pass has work with.
abbrev pub is_ours : Service → Bool
is_ours svc = not (not (is_load_balancer svc) && not (has_finalizer svc))

-- A pass that finds this Service does nothing but fetch it.
abbrev pub IsIdle : Service → Type 0
IsIdle svc =
    (api : Api) (tenant : Bytes) (log : Log)
    → api.get_service log tenant svc.namespace svc.name ≡ ok svc
    → reconcile api tenant svc.namespace svc.name log
      ≡ (ok done, get_service tenant svc.namespace svc.name ∷ log)

idle : (svc : Service) → is_ours svc ≡ false → IsIdle svc
unfolding reconcile fetch_service request try ◌>>=◌
idle svc h api tenant log e =
    rw (e, reconcile) (rw (not→true (not (is_load_balancer svc) && not (has_finalizer svc)) h) refl)

-- The Service is enqueued, or a pass over it would be idle.
all_enqueued :
    (items : List Service) (svc : Service)
    → In svc items
    → In (add (request_for svc)) (enqueue_services finalizer_name items) ⊎ IsIdle svc
unfolding enqueue_services type_load_balancer
all_enqueued [] svc x' = elim x' [ ]
all_enqueued (x ∷ items) svc (here e) =
    elim (Bool-cases (not (is_load_balancer x) && not (has_finalizer x))) [
      | inl f ↦ inr (idle svc (rw e (rw f refl)))
      | inr f ↦ inl (rw (f, enqueue_services) (here (ap (λ y. add (request_for y)) e)))
    ]
all_enqueued (x ∷ items) svc (there i) = elim (all_enqueued items svc i) [
  | inr idles ↦ inr idles
  | inl j ↦ inl (elim (Bool-cases (not (is_load_balancer x) && not (has_finalizer x))) [
    | inl f ↦ rw (f, enqueue_services) j
    | inr f ↦ rw (f, enqueue_services) (there j)
  ])
]

-- The call adds a listed Service that a pass has work with.
abbrev pub AddsOurs : List Service → QueueCall → Type 0
AddsOurs items call =
    (svc : Service) × In svc items × (is_ours svc ≡ true) × (call ≡ add (request_for svc))

only_ours : (items : List Service) → All (AddsOurs items) (enqueue_services finalizer_name items)
unfolding enqueue_services type_load_balancer
only_ours [] = tt
only_ours (x ∷ items) =
    let rest =
      All-map (AddsOurs items) (AddsOurs (x ∷ items)) (λ c a. (a.0, there a.1, a.2, a.3))
        (enqueue_services finalizer_name items) (only_ours items) in
    elim (Bool-cases (not (is_load_balancer x) && not (has_finalizer x))) [
      | inl f ↦ rw (f, enqueue_services) rest
      | inr f ↦ rw (f, enqueue_services) ((x, here refl, rw f refl, refl), rest)
    ]

-- Where the tenant of a changed KubernetesSwitchcloud has a session that can list its Services, the
-- event adds to the queue only listed Services that are load balancers or carry the finalizer, and
-- a pass over any listed Service that is not added would only fetch it.
pub watch_ksc-relays :
    (env : Env) (m : Manager) (tenant : Bytes) (sess : Session) (items : List Service)
    → is_empty tenant ≡ false
    → lookup tenant m.sessions ≡ some sess
    → env.tenants.list_services sess ≡ ok items
    → (calls : List QueueCall) × (watch_ksc env tenant_namespace tenant m ≡ ok calls)
      × All (AddsOurs items) calls
      × ((svc : Service) → In svc items → In (add (request_for svc)) calls ⊎ IsIdle svc)
unfolding watch_ksc enqueue_all_for_tenant enqueue_all_lb_services
watch_ksc-relays env m tenant sess items h s e = (
  enqueue_services finalizer_name items,
  ground (arith, h, s, e, bytes_eq_refl tenant_namespace),
  only_ours items,
  all_enqueued items,
)
