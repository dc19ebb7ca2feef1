-- ===== src/Tests/Fleet.antt =====
-- Examples of the manager of the sessions: a Secret for the tenant "demo" beside another Secret.
use kubernetes_switchcloud.Base.{
  ℕ, true, List, [], ◌∷◌, keep_if, not, Option, none, some, Bytes, lit, lookup, bytes_key, bytes_eq,
  range_order, has_prefix, has_suffix, trim_suffix, trim_prefix, insert, erase, ◌≡◌, refl, In, ◌⊎◌,
  All,
}
use kubernetes_switchcloud.Cloud.Types.{Secret, ok, err, Result}
use kubernetes_switchcloud.Cloud.Action.{new_error}
use kubernetes_switchcloud.Multicluster.{
  kubeconfig_name_prefix, kubeconfig_suffix, is_kubeconfig_secret_name, tenant_from_secret_name,
}
use kubernetes_switchcloud.Multicluster.Session.{
  Session, Tenants, QueueCall, Request, add, new_session, request_for, run_worker,
}
use kubernetes_switchcloud.Multicluster.Session.Worker.{
  run_worker_accounts, gather, of_done, of_retry, of_forget, of_delay, items, handed_out,
  has_failed, wants_delay,
}
use kubernetes_switchcloud.Multicluster.Manager.{
  Env, Manager, kubeconfig_secret_key, is_stale, build_session, reconcile_all, wake, tick,
  parent_done, start_manager,
}
use kubernetes_switchcloud.Multicluster.Manager.Desired.{snapshot_of, config_of}
use kubernetes_switchcloud.Multicluster.Manager.Published.{kept, lookup-reconcile_all}
use kubernetes_switchcloud.Multicluster.Manager.Lifetime.{Outcome, start_manager-Outcome}
use kubernetes_switchcloud.Controller.ServiceReconciler.{tenant_namespace}
use kubernetes_switchcloud.Controller.KscWatcher.{watch_ksc}
use kubernetes_switchcloud.Controller.KscWatcher.Relay.{AddsOurs, IsIdle, watch_ksc-relays}
use kubernetes_switchcloud.Tests.World.{demo, web, demo_secret}

abbrev kubeconfig_text : Bytes
kubeconfig_text = b'k' ∷ []

abbrev other_secret : Secret
other_secret = record { namespace = []; name = lit "grafana-admin"; contents = [] }

abbrev all_secrets : List Secret
all_secrets = other_secret ∷ demo_secret ∷ []

abbrev good_tenants : Tenants
good_tenants = record {
  wait_for_cache_sync = λ s. true;
  get_informer = λ s. ok tt;
  add_event_handler = λ s. ok tt;
  list_services = λ s. ok (web ∷ []);
}

abbrev fleet_env : Env
fleet_env = record {
  list_secrets = λ n. ok all_secrets;
  sha256 = λ b. b;
  rest_config_from_kubeconfig = λ b. ok tt;
  new_cluster = λ n t k. ok tt;
  tenants = good_tenants;
  get_secret_informer = ok tt;
  add_event_handler = ok tt;
  order = λ pass range k. 0;
}

-- A session of an earlier pass, with another kubeconfig.
abbrev old_session : Session
old_session = new_session demo [] 0

abbrev old_fleet : Manager
old_fleet = record { sessions = (demo, old_session) ∷ []; running = old_session ∷ []; passes = 1 }

lookup-reconcile_all_example :
    lookup demo (reconcile_all fleet_env old_fleet).1.sessions
    ≡ kept fleet_env 1 demo (snapshot_of (λ b. b) (config_of demo all_secrets)) (some old_session)
unfolding lookup bytes_eq
lookup-reconcile_all_example =
    lookup-reconcile_all fleet_env old_fleet all_secrets demo (refl, tt) refl

start_manager-Outcome_example : Outcome (start_manager fleet_env (wake ∷ tick ∷ parent_done ∷ []))
start_manager-Outcome_example = start_manager-Outcome fleet_env (wake ∷ tick ∷ parent_done ∷ [])

watch_ksc-relays_example :
    (calls : List QueueCall) × (watch_ksc fleet_env tenant_namespace demo old_fleet ≡ ok calls)
    × All (AddsOurs (web ∷ [])) calls
    × ((svc : _) → In svc (web ∷ []) → In (add (request_for svc)) calls ⊎ IsIdle svc)
unfolding lookup bytes_eq
watch_ksc-relays_example =
    watch_ksc-relays fleet_env old_fleet demo old_session (web ∷ []) refl refl refl

abbrev web_request : Request
web_request = request_for web

abbrev three_gets : List (Option (Request × Result ℕ))
three_gets = some (web_request, ok 5) ∷ some (web_request, err (new_error [])) ∷ none ∷ []

run_worker_accounts_example :
    (gather of_done (run_worker three_gets) ≡ items (handed_out three_gets))
    × (gather of_retry (run_worker three_gets) ≡ items (keep_if has_failed (handed_out three_gets)))
    × (gather of_forget (run_worker three_gets)
        ≡ items (keep_if (λ o. not (has_failed o)) (handed_out three_gets)))
    × (gather of_delay (run_worker three_gets)
        ≡ items (keep_if wants_delay (handed_out three_gets)))
run_worker_accounts_example = run_worker_accounts three_gets

-- The stale session is replaced by one of this pass.
replaced :
    lookup demo (reconcile_all fleet_env old_fleet).1.sessions
    ≡ some (new_session demo kubeconfig_text 1)
unfolding lookup reconcile_all range_order is_kubeconfig_secret_name has_prefix
    kubeconfig_name_prefix lit has_suffix kubeconfig_suffix tenant_from_secret_name trim_suffix
    trim_prefix kubeconfig_secret_key insert is_stale erase build_session bytes_eq
replaced = refl
