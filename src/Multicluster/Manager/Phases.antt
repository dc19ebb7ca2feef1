-- ===== src/Multicluster/Manager/Phases.antt =====
-- manager.go: what each phase of a pass leaves for a tenant.
use kubernetes_switchcloud.Base.{
  ℕ, Bool, true, false, ◌&&◌, List, [], ◌∷◌, ◌++◌, Option, none, some, Bytes, bytes_eq_iff,
  bytes_key, lookup, insert, erase, if◌then◌else◌, ◌≡◌, refl, arith, Bool-cases, Option-cases, inl,
  inr, lookup-insert, lookup-erase, IsMap, insert-IsMap, erase-IsMap,
}
use kubernetes_switchcloud.Cloud.Types.{Result, ok, err}
use kubernetes_switchcloud.Multicluster.Session.{Session, new_session, start, stop}
use kubernetes_switchcloud.Multicluster.Manager.{
  SecretSnapshot, Desired, Sessions, Env, is_stale, unpublish_stale, add_missing, build_session,
  build_and_start, build_all, publish,
}

abbrev pub is_ok {ℓ} : {A : Type ℓ} → Result A → Bool
is_ok (ok a) = true
is_ok (err e) = false

-- Is the session that a tenant has to be stopped?
abbrev pub stale_at : Option SecretSnapshot → Option Session → Bool
stale_at want none = false
stale_at want (some sess) = is_stale want sess

pub lookup-unpublish_stale :
    (desired : Desired) (entries sessions : Sessions) (to_stop : List Session) (t : Bytes)
    → IsMap entries
    → lookup t (unpublish_stale desired entries (to_stop, sessions)).1
      ≡ (if stale_at (lookup t desired) (lookup t entries) then none else lookup t sessions)
unfolding unpublish_stale lookup
lookup-unpublish_stale desired [] sessions to_stop t h = refl
lookup-unpublish_stale desired ((k, s) ∷ entries) sessions to_stop t h = ground (
  arith,
  h,
  bytes_eq_iff k t,
  lookup-erase k t sessions,
  lookup-unpublish_stale desired entries sessions to_stop t h.1,
  lookup-unpublish_stale desired entries (erase k sessions) (to_stop ++ (s ∷ [])) t h.1,
)

pub unpublish_stale-IsMap :
    (desired : Desired) (entries sessions : Sessions) (to_stop : List Session)
    → IsMap sessions
    → IsMap (unpublish_stale desired entries (to_stop, sessions)).1
unfolding unpublish_stale
unpublish_stale-IsMap desired [] sessions to_stop h = h
unpublish_stale-IsMap desired ((k, s) ∷ entries) sessions to_stop h =
    elim (Bool-cases (is_stale (lookup k desired) s)) [
      | inl e ↦
          rw (e, unpublish_stale)
            (unpublish_stale-IsMap desired entries (erase k sessions) _ (erase-IsMap k sessions h))
      | inr e ↦ rw (e, unpublish_stale) (unpublish_stale-IsMap desired entries sessions to_stop h)
    ]

-- What is added for a tenant: what is wanted, where there is no session.
abbrev pub missing :
    Option Session → Option SecretSnapshot → Option SecretSnapshot → Option SecretSnapshot
missing (some s) want before = before
missing none none before = before
missing none (some want) before = some want

pub lookup-add_missing :
    (sessions : Sessions) (entries to_build : Desired) (t : Bytes)
    → IsMap entries
    → lookup t (add_missing sessions entries to_build)
      ≡ missing (lookup t sessions) (lookup t entries) (lookup t to_build)
unfolding add_missing lookup
lookup-add_missing sessions [] to_build t h = ground arith
lookup-add_missing sessions ((k, want) ∷ entries) to_build t h = ground (
  arith,
  h,
  bytes_eq_iff k t,
  lookup-insert k t want to_build,
  lookup-add_missing sessions entries to_build t h.1,
  lookup-add_missing sessions entries (insert k want to_build) t h.1,
)

pub add_missing-IsMap :
    (sessions : Sessions) (entries to_build : Desired)
    → IsMap to_build
    → IsMap (add_missing sessions entries to_build)
unfolding add_missing
add_missing-IsMap sessions [] to_build h = h
add_missing-IsMap sessions ((k, want) ∷ entries) to_build h =
    elim (Option-cases (lookup k sessions)) [
      | inl e ↦ rw e (add_missing-IsMap sessions entries _ (insert-IsMap k want to_build h))
      | inr (s, e) ↦ rw e (add_missing-IsMap sessions entries to_build h)
    ]

-- Do all the steps of a build for a tenant succeed?
abbrev pub builds : Env → ℕ → Bytes → SecretSnapshot → Bool
builds env pass tenant want =
    let sess = new_session tenant want.hash pass in
    is_ok (env.rest_config_from_kubeconfig want.kubeconfig)
    && is_ok (env.new_cluster pass tenant want.kubeconfig)
    && env.tenants.wait_for_cache_sync sess
    && is_ok (env.tenants.get_informer sess)
    && is_ok (env.tenants.add_event_handler sess)

abbrev pub succeeded : Option (Result Session) → Option Session
succeeded none = none
succeeded (some (err e)) = none
succeeded (some (ok sess)) = some sess

-- The session that a pass makes for a tenant.
abbrev pub fresh : Env → ℕ → Bytes → Option SecretSnapshot → Option Session
fresh env pass tenant none = none
fresh env pass tenant (some want) =
    if builds env pass tenant want then some (new_session tenant want.hash pass) else none

pub build_and_start-builds :
    (env : Env) (pass : ℕ) (t : Bytes) (want : SecretSnapshot) (running : List Session)
    → succeeded (some (build_and_start env pass t want running).0) ≡ fresh env pass t (some want)
unfolding build_and_start build_session start
build_and_start-builds env pass t want running = ground arith

pub lookup-build_all :
    (env : Env) (pass : ℕ) (to_build : Desired) (running : List Session) (t : Bytes)
    → succeeded (lookup t (build_all env pass to_build running).0)
      ≡ fresh env pass t (lookup t to_build)
unfolding build_all lookup
lookup-build_all env pass [] running t = refl
lookup-build_all env pass ((k, want) ∷ to_build) running t = ground (
  arith,
  bytes_eq_iff k t,
  build_and_start-builds env pass k want running,
  lookup-build_all env pass to_build (build_and_start env pass k want running).1 t,
)

pub lookup-none-build_all :
    (env : Env) (pass : ℕ) (to_build : Desired) (running : List Session) (t : Bytes)
    → lookup t to_build ≡ none
    → lookup t (build_all env pass to_build running).0 ≡ none
unfolding build_all lookup
lookup-none-build_all env pass [] running t h = refl
lookup-none-build_all env pass ((k, want) ∷ to_build) running t h = ground (
  arith,
  h,
  lookup-none-build_all env pass to_build (build_and_start env pass k want running).1 t,
)

pub build_all-IsMap :
    (env : Env) (pass : ℕ) (to_build : Desired) (running : List Session)
    → IsMap to_build
    → IsMap (build_all env pass to_build running).0
unfolding build_all
build_all-IsMap env pass [] running h = tt
build_all-IsMap env pass ((k, want) ∷ to_build) running h =
    let running' = (build_and_start env pass k want running).1 in
    (
      lookup-none-build_all env pass to_build running' k h.0,
      build_all-IsMap env pass to_build running' h.1,
    )

-- What is published for a tenant: what was, or else the result.
abbrev pub published : Option Session → Option (Result Session) → Option Session
published (some s) r = some s
published none r = succeeded r

pub lookup-publish :
    (results : List (Bytes × Result Session)) (sessions : Sessions) (running : List Session)
    → IsMap results
    → (t : Bytes)
    → lookup t (publish results (sessions, running)).0
      ≡ published (lookup t sessions) (lookup t results)
unfolding publish lookup
lookup-publish [] sessions running h t = ground arith
lookup-publish ((k, err e) ∷ results) sessions running h t =
    ground (arith, h, bytes_eq_iff k t, lookup-publish results sessions running h.1 t)
lookup-publish ((k, ok sess) ∷ results) sessions running h t =
    elim (Option-cases (lookup k sessions)) [
      | inl e ↦ ground (
        arith,
        e,
        h,
        bytes_eq_iff k t,
        lookup-insert k t sess sessions,
        lookup-publish results (insert k sess sessions) running h.1 t,
      )
      | inr (s, e) ↦
          ground (
            arith,
            e,
            h,
            bytes_eq_iff k t,
            lookup-publish results sessions (stop sess running) h.1 t,
          )
    ]

pub publish-IsMap :
    (results : List (Bytes × Result Session)) (sessions : Sessions) (running : List Session)
    → IsMap sessions
    → IsMap (publish results (sessions, running)).0
unfolding publish
publish-IsMap [] sessions running h = h
publish-IsMap ((k, err e) ∷ results) sessions running h = publish-IsMap results sessions running h
publish-IsMap ((k, ok sess) ∷ results) sessions running h =
    elim (Option-cases (lookup k sessions)) [
      | inl e ↦ rw (e, publish) (publish-IsMap results _ running (insert-IsMap k sess sessions h))
      | inr (s, e) ↦ rw (e, publish) (publish-IsMap results sessions _ h)
    ]
