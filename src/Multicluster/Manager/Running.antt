-- ===== src/Multicluster/Manager/Running.antt =====
-- manager.go and session.go: which sessions run, beside those that are published.
use kubernetes_switchcloud.Base.{
  ℕ, Bool, true, false, not, ◌&&◌, ◌||◌, List, [], ◌∷◌, ◌++◌, Option, none, some, Bytes, bytes_eq,
  bytes_eq_iff, bytes_key, lookup, ◌≡◌, refl, arith, Bool-cases, inl, inr, ◌⊎◌, ◌↔◌, lookup-insert,
  erase, IsMap, insert, keep_if,
}
use kubernetes_switchcloud.Cloud.Types.{Result, ok, err}
use kubernetes_switchcloud.Multicluster.Session.{
  Session, new_session, same_session, cancel, start, stop,
}
use kubernetes_switchcloud.Multicluster.Manager.{
  SecretSnapshot, Desired, Sessions, Env, unpublish_stale, stop_all_of, build_session,
  build_and_start, build_all, publish,
}
use kubernetes_switchcloud.Multicluster.Manager.Phases.{stale_at, succeeded, fresh}
use kubernetes_switchcloud.Multicluster.Manager.Published.{to_build}

pub same_session_iff : (s t : Session) → (same_session s t ≡ true) ↔ (s ≡ t)
unfolding same_session
same_session_iff s t =
    ground (arith, bytes_eq_iff s.tenant t.tenant, bytes_eq_iff s.kubeconfig_hash t.kubeconfig_hash)

-- Is the session among those?
unfoldable pub is_in : Session → List Session → Bool
is_in x [] = false
is_in x (s ∷ sessions) = same_session s x || is_in x sessions

pub is_in-stop :
    (x s : Session) (running : List Session)
    → is_in x (stop s running) ≡ (is_in x running && not (same_session s x))
unfolding is_in stop cancel keep_if
is_in-stop x s [] = refl
is_in-stop x s (t ∷ running) = ground (
  arith,
  is_in-stop x s running,
  same_session_iff t x,
  same_session_iff s x,
  same_session_iff t s,
)

pub is_in-stop_all_of :
    (x : Session) (to_stop running : List Session)
    → is_in x (stop_all_of to_stop running) ≡ (is_in x running && not (is_in x to_stop))
unfolding is_in stop_all_of
is_in-stop_all_of x [] running = ground arith
is_in-stop_all_of x (s ∷ to_stop) running =
    ground (arith, is_in-stop_all_of x to_stop (stop s running), is_in-stop x s running)

pub is_in-append : (x : Session) (a b : List Session) → is_in x (a ++ b) ≡ (is_in x a || is_in x b)
unfolding is_in
is_in-append x [] b = refl
is_in-append x (s ∷ a) b = ground (arith, is_in-append x a b)

abbrev pub holds : Session → Option Session → Bool
holds x none = false
holds x (some s) = same_session s x

-- Each session stands under its tenant.
abbrev pub OwnKeys : Sessions → Type 0
OwnKeys sessions = (t : Bytes) (s : Session) → lookup t sessions ≡ some s → s.tenant ≡ t

pub OwnKeys-tail :
    (k : Bytes) (s : Session) (entries : Sessions)
    → IsMap ((k, s) ∷ entries)
    → OwnKeys ((k, s) ∷ entries)
    → OwnKeys entries
unfolding lookup
OwnKeys-tail k s entries h o t u e = elim (Bool-cases (bytes_eq k t)) [
  | inl f ↦ absurd (ground (arith, h, e, f, bytes_eq_iff k t))
  | inr f ↦ o t u (rw (f, lookup) e)
]

pub OwnKeys-head :
    (k : Bytes) (s : Session) (entries : Sessions) → OwnKeys ((k, s) ∷ entries) → s.tenant ≡ k
unfolding lookup
OwnKeys-head k s entries o = o k s (ground (arith, bytes_eq_iff k k))

-- What phase 1 stops.
pub is_in-unpublish_stale :
    (desired : Desired) (entries sessions : Sessions) (to_stop : List Session) (x : Session)
    → IsMap entries
    → OwnKeys entries
    → is_in x (unpublish_stale desired entries (to_stop, sessions)).0 ≡ (
        is_in x to_stop
        || (stale_at (lookup x.tenant desired) (lookup x.tenant entries)
            && holds x (lookup x.tenant entries)))
unfolding unpublish_stale lookup is_in
is_in-unpublish_stale desired [] sessions to_stop x h o = ground arith
is_in-unpublish_stale desired ((k, s) ∷ entries) sessions to_stop x h o = ground (
  arith,
  h.0,
  OwnKeys-head k s entries o,
  same_session_iff s x,
  bytes_eq_iff k x.tenant,
  is_in-append x to_stop (s ∷ []),
  is_in-unpublish_stale desired entries sessions to_stop x h.1 (OwnKeys-tail k s entries h o),
  is_in-unpublish_stale desired entries (erase k sessions) (to_stop ++ (s ∷ [])) x h.1
      (OwnKeys-tail k s entries h o),
)

abbrev pub is_wanted : Option SecretSnapshot → Bool
is_wanted none = false
is_wanted (some want) = true

-- What one build leaves running: the session that it makes, if it makes one.
pub is_in-build_and_start :
    (env : Env) (pass : ℕ) (t : Bytes) (want : SecretSnapshot) (running : List Session)
    (x : Session)
    → is_in (new_session t want.hash pass) running ≡ false
    → is_in x (build_and_start env pass t want running).1
      ≡ (holds x (fresh env pass t (some want)) || is_in x running)
unfolding build_and_start build_session start is_in stop
is_in-build_and_start env pass t want running x h =
    let s = new_session t want.hash pass in
    ground (
      arith,
      h,
      same_session_iff s x,
      is_in-stop x s (s ∷ running),
      is_in-stop x s (stop s (s ∷ running)),
    )

-- No session of this pass runs for a tenant that is still to be built.
abbrev pub NoneYet : ℕ → Desired → List Session → Type 0
NoneYet pass to_build running =
    (x : Session)
    → x.built_in ≡ pass
    → is_wanted (lookup x.tenant to_build) ≡ true
    → is_in x running ≡ false

pub is_in-build_all :
    (env : Env) (pass : ℕ) (to_build : Desired) (running : List Session)
    → IsMap to_build
    → NoneYet pass to_build running
    → (x : Session)
    → is_in x (build_all env pass to_build running).1
      ≡ (holds x (fresh env pass x.tenant (lookup x.tenant to_build)) || is_in x running)
unfolding build_all lookup
is_in-build_all env pass [] running h n x = ground arith
is_in-build_all env pass ((k, want) ∷ to_build) running h n x =
    let new = new_session k want.hash pass in
    let head = is_in-build_and_start env pass k want running in
    let absent : is_in new running ≡ false = n new refl (ground (arith, bytes_eq_iff k k)) in
    let rest : NoneYet pass to_build (build_and_start env pass k want running).1 = λ y b t.
      ground
        (arith, t, b, h.0, n y b, head y absent, bytes_eq_iff k y.tenant, same_session_iff new y) in
    ground (
      arith,
      h.0,
      bytes_eq_iff k x.tenant,
      head x absent,
      same_session_iff new x,
      is_in-build_all env pass to_build (build_and_start env pass k want running).1 h.1 rest x,
    )

-- Where a result of a pass meets no published session, none is stopped.
pub publish-running :
    (results : List (Bytes × Result Session)) (sessions : Sessions) (running : List Session)
    → IsMap results
    → ((t : Bytes) → (lookup t sessions ≡ none) ⊎ (succeeded (lookup t results) ≡ none))
    → (publish results (sessions, running)).1 ≡ running
unfolding publish lookup
publish-running [] sessions running h free = refl
publish-running ((k, err e) ∷ results) sessions running h free =
    publish-running results sessions running h.1
      (λ t. ground (arith, free t, h.0, bytes_eq_iff k t))
publish-running ((k, ok sess) ∷ results) sessions running h free =
    let e : lookup k sessions ≡ none = ground (arith, free k, bytes_eq_iff k k) in
    rw (e, publish)
      (publish-running results (insert k sess sessions) running h.1
        (λ t. ground (arith, free t, h.0, bytes_eq_iff k t, lookup-insert k t sess sessions)))
