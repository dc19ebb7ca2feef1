-- ===== src/Multicluster/Manager/Lifetime.antt =====
-- manager.go: the sessions over the passes of Start.
use kubernetes_switchcloud.Base.{
  false, List, [], ◌∷◌, map, Option, none, some, bytes_eq_iff, bytes_key, lookup, range_order, ◌≡◌,
  refl, sym, ◌∙◌, arith, IsMap, lookup-range_order, range_order-IsMap,
}
use kubernetes_switchcloud.Cloud.Types.{Result, ok, err}
use kubernetes_switchcloud.Multicluster.Session.{Session}
use kubernetes_switchcloud.Multicluster.Manager.{
  Sessions, Env, Manager, desired_from, reconcile_all, stop_all, Received, wake, tick, parent_done,
  serve, start_manager, no_sessions,
}
use kubernetes_switchcloud.Multicluster.Manager.Desired.{desired_from-IsMap}
use kubernetes_switchcloud.Multicluster.Manager.Tidy.{IsTidy, apply_desired-IsTidy}
use kubernetes_switchcloud.Multicluster.Manager.Running.{
  is_in, is_in-stop_all_of, same_session_iff, holds, OwnKeys, OwnKeys-tail, OwnKeys-head,
}

-- A pass, whether the Secrets can be listed or not, leaves running just the sessions that it leaves
-- published, each under its tenant and made by a pass before the next one.
pub reconcile_all-IsTidy : (env : Env) (m : Manager) → IsTidy m → IsTidy (reconcile_all env m).1
unfolding reconcile_all
reconcile_all-IsTidy env m h =
    elim (env.list_secrets m.passes)
        as (λ r. env.list_secrets m.passes ≡ r → IsTidy (reconcile_all env m).1) [
          | err e ↦ λ q.
              rw (q, reconcile_all)
                (record {
                  one_each = h.one_each;
                  own_keys = h.own_keys;
                  earlier = λ t s l. omega (arith, h.earlier t s l);
                  just_published = h.just_published;
                })
          | ok items ↦ λ q.
              rw (q, reconcile_all)
                (apply_desired-IsTidy env (desired_from env.sha256 items []) m
                  (desired_from-IsMap env.sha256 items [] tt) h)
        ]
      refl

is_in-map :
    (x : Session) (entries : Sessions)
    → IsMap entries
    → OwnKeys entries
    → is_in x (map (λ e. e.1) entries) ≡ holds x (lookup x.tenant entries)
unfolding is_in lookup
is_in-map x [] h o = refl
is_in-map x ((k, s) ∷ entries) h o = ground (
  arith,
  h.0,
  OwnKeys-head k s entries o,
  same_session_iff s x,
  bytes_eq_iff k x.tenant,
  is_in-map x entries h.1 (OwnKeys-tail k s entries h o),
)

nobody : (running : List Session) → ((x : Session) → is_in x running ≡ false) → running ≡ []
unfolding is_in
nobody [] h = refl
nobody (s ∷ running) h = absurd (ground (arith, h s, same_session_iff s s))

stop_all-running : (env : Env) (m : Manager) → IsTidy m → (stop_all env m).running ≡ []
unfolding stop_all
stop_all-running env m h =
    let choice = env.order m.passes 0 in
    let entries = range_order choice m.sessions in
    let o : OwnKeys entries =
      λ t s e. h.own_keys t s (sym (lookup-range_order choice m.sessions t h.one_each) ∙ e) in
    nobody (stop_all env m).running (λ x. ground (
      arith,
      is_in-stop_all_of x (map (λ e. e.1) entries) m.running,
      is_in-map x entries (range_order-IsMap choice m.sessions h.one_each) o,
      lookup-range_order choice m.sessions x.tenant h.one_each,
      h.just_published x,
    ))

-- All is stopped.
abbrev pub IsStopped : Manager → Type 0
IsStopped m = (m.running ≡ []) × (m.sessions ≡ [])

IsStopped-stop_all : (env : Env) (m : Manager) → IsTidy m → IsStopped (stop_all env m)
unfolding stop_all
IsStopped-stop_all env m h = (stop_all-running env m h, refl)

no_sessions-IsTidy : IsTidy no_sessions
unfolding is_in lookup
no_sessions-IsTidy = record {
  one_each = tt;
  own_keys = λ t s e. ground (arith, e);
  earlier = λ t s e. ground (arith, e);
  just_published = λ s. refl;
}

-- While Start waits its sessions are tidy, and when it has returned all is stopped.
abbrev pub Outcome : Option (Result (Unit {0})) × Manager → Type 0
Outcome (none, m) = IsTidy m
Outcome (some r, m) = IsStopped m

serve-Outcome :
    (env : Env) (received : List Received) (m : Manager) → IsTidy m → Outcome (serve env received m)
unfolding serve
serve-Outcome env [] m h = h
serve-Outcome env (parent_done ∷ received) m h = IsStopped-stop_all env m h
serve-Outcome env (wake ∷ received) m h =
    serve-Outcome env received (reconcile_all env m).1 (reconcile_all-IsTidy env m h)
serve-Outcome env (tick ∷ received) m h =
    serve-Outcome env received (reconcile_all env m).1 (reconcile_all-IsTidy env m h)

-- Whatever Start receives and whatever the libraries answer: while it waits, just the published
-- sessions run, and once it has returned, with an error or without, no session runs and none is
-- published.
pub start_manager-Outcome :
    (env : Env) (received : List Received) → Outcome (start_manager env received)
unfolding start_manager
start_manager-Outcome env received =
    let tidy = reconcile_all-IsTidy env no_sessions no_sessions-IsTidy in
    elim env.get_secret_informer
        as (λ r. env.get_secret_informer ≡ r → Outcome (start_manager env received)) [
          | err e ↦
              λ q. rw (q, start_manager) (IsStopped-stop_all env no_sessions no_sessions-IsTidy)
          | ok _ ↦ λ q.
              elim env.add_event_handler
                  as (λ r. env.add_event_handler ≡ r → Outcome (start_manager env received)) [
                    | err e ↦ λ p.
                        rw (q, p, start_manager)
                          (IsStopped-stop_all env no_sessions no_sessions-IsTidy)
                    | ok _ ↦ λ p.
                        elim (reconcile_all env no_sessions).0
                            as (λ r.
                              (reconcile_all env no_sessions).0 ≡ r
                              → Outcome (start_manager env received)) [
                                | err e ↦ λ f.
                                    rw (q, p, f, start_manager)
                                      (IsStopped-stop_all env (reconcile_all env no_sessions).1
                                        tidy)
                                | ok _ ↦ λ f.
                                    rw (q, p, f, start_manager)
                                      (serve-Outcome env received (reconcile_all env no_sessions).1
                                        tidy)
                              ]
                          refl
                  ]
                refl
        ]
      refl
