-- ===== src/Multicluster/Manager.antt =====
-- manager.go: the sessions of the tenants, kept up with the kubeconfig Secrets.
pub mod Desired
pub mod Phases
pub mod Published
pub mod Running
pub mod Tidy
pub mod Lifetime
use kubernetes_switchcloud.Base.{
  ℕ, suc, Bool, true, false, not, ◌||◌, List, [], ◌∷◌, ◌++◌, map, Option, none, some, Bytes, lit,
  is_empty, bytes_eq, bytes_key, lookup, insert, erase, range_order, if◌then◌else◌, String,
}
use kubernetes_switchcloud.Cloud.Types.{Secret, Error, Result, ok, err}
use kubernetes_switchcloud.Cloud.Action.{wrapped}
use kubernetes_switchcloud.Multicluster.{tenant_from_secret_name, is_kubeconfig_secret_name}
use kubernetes_switchcloud.Multicluster.Session.{
  Session, Tenants, QueueCall, new_session, start, stop, enqueue_all_lb_services,
}

-- secretSnapshot
pub record SecretSnapshot : Type 0 where
  pub kubeconfig : Bytes
  pub hash : Bytes

abbrev pub Desired : Type 0
Desired = List (Bytes × SecretSnapshot)

abbrev pub Sessions : Type 0
Sessions = List (Bytes × Session)

-- The answers of the libraries to the manager. sha256 is the hash in hexadecimal; the kubeconfig is
-- parsed and a cluster built from it, for a pass and a tenant.
pub record Env : Type 0 where
  pub list_secrets : ℕ → Result (List Secret)
  pub sha256 : Bytes → Bytes
  pub rest_config_from_kubeconfig : Bytes → Result (Unit {0})
  pub new_cluster : ℕ → Bytes → Bytes → Result (Unit {0})
  pub tenants : Tenants
  pub get_secret_informer : Result (Unit {0})
  pub add_event_handler : Result (Unit {0})
  -- The orders of the ranges of a pass, counted from 0.
  pub order : ℕ → ℕ → ℕ → ℕ

-- Manager: the sessions it publishes, those whose goroutines run, and the number of passes so far.
pub record Manager : Type 0 where
  pub sessions : Sessions
  pub running : List Session
  pub passes : ℕ

unfoldable pub kubeconfig_secret_key : Bytes
kubeconfig_secret_key = lit "super-admin.conf"

-- The round of reconcileAll for one Secret, and its loop over the Secrets.
unfoldable pub want_secret : (Bytes → Bytes) → Secret → Desired → Desired
want_secret sha256 s desired =
    let tenant = tenant_from_secret_name s.name in
    if not (is_kubeconfig_secret_name s.name) || is_empty tenant
    then desired
    else elim (lookup kubeconfig_secret_key s.contents) [
      | none ↦ desired
      | some kubeconfig ↦
          if is_empty kubeconfig
          then desired
          else insert tenant (record { kubeconfig = kubeconfig; hash = sha256 kubeconfig }) desired
    ]

unfoldable pub desired_from : (Bytes → Bytes) → List Secret → Desired → Desired
unfolding want_secret
desired_from sha256 [] desired = desired
desired_from sha256 (s ∷ items) desired = desired_from sha256 items (want_secret sha256 s desired)

-- Is the session to be stopped: is its tenant gone, or its kubeconfig another one?
unfoldable pub is_stale : Option SecretSnapshot → Session → Bool
is_stale none sess = true
is_stale (some want) sess = not (bytes_eq want.hash sess.kubeconfig_hash)

-- Phase 1, over the sessions: what to stop, and what stays published.
unfoldable pub unpublish_stale :
    Desired → Sessions → List Session × Sessions → List Session × Sessions
unpublish_stale desired [] s = s
unpublish_stale desired ((tenant, sess) ∷ entries) (to_stop, sessions) =
    unpublish_stale desired entries (
      if is_stale (lookup tenant desired) sess
      then (to_stop ++ (sess ∷ []), erase tenant sessions)
      else (to_stop, sessions))

-- Phase 1, over the Secrets: what to build.
unfoldable pub add_missing : Sessions → Desired → Desired → Desired
add_missing sessions [] to_build = to_build
add_missing sessions ((tenant, want) ∷ entries) to_build =
    add_missing sessions entries
      (elim (lookup tenant sessions) [ some _ ↦ to_build | none ↦ insert tenant want to_build ])

-- Phase 2
unfoldable pub stop_all_of : List Session → List Session → List Session
stop_all_of [] running = running
stop_all_of (s ∷ to_stop) running = stop_all_of to_stop (stop s running)

-- buildSession
unfoldable pub build_session : Env → ℕ → Bytes → SecretSnapshot → Result Session
build_session env pass tenant want = elim (env.rest_config_from_kubeconfig want.kubeconfig) [
  | err e ↦ err (wrapped (lit "parsing kubeconfig for tenant") e)
  | ok _ ↦ elim (env.new_cluster pass tenant want.kubeconfig) [
    | err e ↦ err (wrapped (lit "building cluster.Cluster for tenant") e)
    | ok _ ↦ ok (new_session tenant want.hash pass)
  ]
]

-- What one goroutine of phase 3 does.
unfoldable pub build_and_start :
    Env → ℕ → Bytes → SecretSnapshot → List Session → Result Session × List Session
unfolding start stop
build_and_start env pass tenant want running = elim (build_session env pass tenant want) [
  | err e ↦ (err e, running)
  | ok sess ↦
      let (r, running') = start env.tenants sess running in
      elim r [ err e ↦ (err e, stop sess running') | ok _ ↦ (ok sess, running') ]
]

-- Phase 3: the results by tenant.
unfoldable pub build_all :
    Env → ℕ → Desired → List Session → List (Bytes × Result Session) × List Session
unfolding build_and_start
build_all env pass [] running = ([], running)
build_all env pass ((tenant, want) ∷ to_build) running =
    let (r, running') = build_and_start env pass tenant want running in
    let (results, running'') = build_all env pass to_build running' in
    ((tenant, r) ∷ results, running'')

-- Phase 4: a session that another pass has published wins.
unfoldable pub publish :
    List (Bytes × Result Session) → Sessions × List Session → Sessions × List Session
unfolding stop
publish [] s = s
publish ((tenant, r) ∷ results) (sessions, running) = publish results (elim r [
  | err e ↦ (sessions, running)
  | ok sess ↦ elim (lookup tenant sessions) [
    | some existing ↦ (sessions, stop sess running)
    | none ↦ (insert tenant sess sessions, running)
  ]
])

-- reconcileAll, once the Secrets are listed: the orders are those of the ranges over the sessions,
-- over the tenants wanted and to be built, and that in which the builds end.
unfoldable pub apply_desired : Env → Desired → Manager → Manager
unfolding unpublish_stale add_missing stop_all_of build_all publish
apply_desired env desired m =
    let pass = m.passes in
    let (to_stop, sessions) =
      unpublish_stale desired (range_order (env.order pass 0) m.sessions) ([], m.sessions) in
    let to_build = add_missing sessions (range_order (env.order pass 1) desired) [] in
    let (results, running) =
      build_all env pass (range_order (env.order pass 2) to_build)
        (stop_all_of to_stop m.running) in
    let (sessions', running') =
      publish (range_order (env.order pass 3) results) (sessions, running) in
    record { sessions = sessions'; running = running'; passes = suc pass }

-- reconcileAll
unfoldable pub reconcile_all : Env → Manager → Result (Unit {0}) × Manager
unfolding desired_from apply_desired
reconcile_all env m = elim (env.list_secrets m.passes) [
  | err e ↦ (err (wrapped (lit "listing tenant Secrets") e), record m { passes = suc m.passes })
  | ok items ↦ (ok tt, apply_desired env (desired_from env.sha256 items []) m)
]

-- EnqueueAllForTenant: the calls on the queue of the tenant's session.
unfoldable pub enqueue_all_for_tenant : Env → Bytes → Bytes → Manager → Result (List QueueCall)
unfolding enqueue_all_lb_services
enqueue_all_for_tenant env finalizer tenant m = elim (lookup tenant m.sessions) [
  | none ↦ ok []
  | some sess ↦ enqueue_all_lb_services env.tenants sess finalizer
]

-- stopAll
unfoldable pub stop_all : Env → Manager → Manager
unfolding stop_all_of
stop_all env m = record m {
  sessions = [];
  running = stop_all_of (map (λ e. e.1) (range_order (env.order m.passes 0) m.sessions)) m.running;
}

-- TenantClient: the session whose client it is.
unfoldable pub tenant_client : Bytes → Manager → Option Session
tenant_client tenant m = lookup tenant m.sessions

-- What the loop of Start receives: a wake-up, a tick of the timer, or the end of its context.
pub data Received : Type 0 where
  wake : Received
  tick : Received
  parent_done : Received

-- The loop of Start: an error of a pass is only logged. It still waits where the list ends.
unfoldable pub serve : Env → List Received → Manager → Option (Result (Unit {0})) × Manager
unfolding reconcile_all stop_all
serve env [] m = (none, m)
serve env (parent_done ∷ received) m = (some (ok tt), stop_all env m)
serve env (wake ∷ received) m = serve env received (reconcile_all env m).1
serve env (tick ∷ received) m = serve env received (reconcile_all env m).1

abbrev pub no_sessions : Manager
no_sessions = record { sessions = []; running = []; passes = 0 }

-- Manager.Start: what it returns, if it does. stopAll is deferred.
unfoldable pub start_manager : Env → List Received → Option (Result (Unit {0})) × Manager
unfolding serve reconcile_all stop_all
start_manager env received = elim env.get_secret_informer [
  | err e ↦ (some (err (wrapped (lit "getting Secret informer") e)), stop_all env no_sessions)
  | ok _ ↦ elim env.add_event_handler [
    | err e ↦
        (some (err (wrapped (lit "registering Secret event handler") e)), stop_all env no_sessions)
    | ok _ ↦
        let (r, m) = reconcile_all env no_sessions in
        elim r [
          | err e ↦ (some (err (wrapped (lit "initial Session reconcile") e)), stop_all env m)
          | ok _ ↦ serve env received m
        ]
  ]
]
