-- ===== src/Multicluster/Manager/Published.antt =====
-- manager.go: the sessions that are published after a pass, tenant by tenant.
use kubernetes_switchcloud.Base.{
  ℕ, List, [], Option, none, some, Bytes, bytes_eq, bytes_key, lookup, range_order, if◌then◌else◌,
  ◌≡◌, refl, ◌∙◌, arith, IsMap, lookup-range_order, range_order-IsMap,
}
use kubernetes_switchcloud.Cloud.Types.{Secret, Result, ok, err}
use kubernetes_switchcloud.Multicluster.Session.{Session}
use kubernetes_switchcloud.Multicluster.Manager.{
  SecretSnapshot, Desired, Sessions, Env, Manager, desired_from, is_stale, unpublish_stale,
  add_missing, stop_all_of, build_all, apply_desired, reconcile_all,
}
use kubernetes_switchcloud.Multicluster.Manager.Desired.{
  config_of, desired_from-IsMap, lookup-desired_from, snapshot_of,
}
use kubernetes_switchcloud.Multicluster.Manager.Phases.{
  add_missing-IsMap, build_all-IsMap, fresh, lookup-add_missing, lookup-build_all, lookup-publish,
  lookup-unpublish_stale, missing, publish-IsMap, stale_at, succeeded, unpublish_stale-IsMap,
}

-- What a pass leaves published for a tenant: the session it had, where its kubeconfig is still the
-- wanted one, and otherwise a fresh one, if it can be built.
abbrev pub kept : Env → ℕ → Bytes → Option SecretSnapshot → Option Session → Option Session
kept env pass t none old = none
kept env pass t (some want) none = fresh env pass t (some want)
kept env pass t (some want) (some sess) =
    if bytes_eq want.hash sess.kubeconfig_hash then some sess else fresh env pass t (some want)

-- The phases of a pass: what phase 1 stops and leaves published, what there is to build, and what
-- phase 3 returns.
module _ (env : Env) (desired : Desired) (m : Manager) where
  abbrev pub phase_one : List Session × Sessions
  phase_one =
      unpublish_stale desired (range_order (env.order m.passes 0) m.sessions) ([], m.sessions)

  abbrev pub to_build : Desired
  to_build = add_missing phase_one.1 (range_order (env.order m.passes 1) desired) []

  abbrev pub built : List (Bytes × Result Session) × List Session
  built =
      build_all env m.passes (range_order (env.order m.passes 2) to_build)
        (stop_all_of phase_one.0 m.running)

  pub lookup-phase_one :
      (t : Bytes)
      → IsMap m.sessions
      → lookup t phase_one.1
        ≡ (if stale_at (lookup t desired) (lookup t m.sessions) then none else lookup t m.sessions)
  lookup-phase_one t h =
      let choice = env.order m.passes 0 in
      lookup-unpublish_stale desired (range_order choice m.sessions) m.sessions [] t
        (range_order-IsMap choice m.sessions h)
      ∙ rw (lookup-range_order choice m.sessions t h) refl

  pub to_build-IsMap : IsMap to_build
  to_build-IsMap = add_missing-IsMap phase_one.1 (range_order (env.order m.passes 1) desired) [] tt

  pub lookup-to_build :
      (t : Bytes)
      → IsMap desired
      → lookup t to_build ≡ missing (lookup t phase_one.1) (lookup t desired) none
  unfolding lookup
  lookup-to_build t d =
      let choice = env.order m.passes 1 in
      lookup-add_missing phase_one.1 (range_order choice desired) [] t
        (range_order-IsMap choice desired d)
      ∙ rw (lookup-range_order choice desired t d) refl

  pub results-IsMap : IsMap (range_order (env.order m.passes 3) built.0)
  results-IsMap = range_order-IsMap (env.order m.passes 3) built.0 (
      build_all-IsMap env m.passes (range_order (env.order m.passes 2) to_build)
        (stop_all_of phase_one.0 m.running)
        (range_order-IsMap (env.order m.passes 2) to_build to_build-IsMap))

  pub lookup-results :
      (t : Bytes)
      → succeeded (lookup t (range_order (env.order m.passes 3) built.0))
        ≡ fresh env m.passes t (lookup t to_build)
  lookup-results t =
      let choice = env.order m.passes 2 in
      let stopped = stop_all_of phase_one.0 m.running in
      let b = range_order-IsMap choice to_build to_build-IsMap in
      ground (
        arith,
        lookup-range_order (env.order m.passes 3) built.0 t
            (build_all-IsMap env m.passes (range_order choice to_build) stopped b),
        lookup-build_all env m.passes (range_order choice to_build) stopped t,
        lookup-range_order choice to_build t to_build-IsMap,
      )

  pub lookup-apply_desired :
      (t : Bytes)
      → IsMap desired
      → IsMap m.sessions
      → lookup t (apply_desired env desired m).sessions
        ≡ kept env m.passes t (lookup t desired) (lookup t m.sessions)
  unfolding apply_desired is_stale
  lookup-apply_desired t d h = ground (
    arith,
    lookup-publish (range_order (env.order m.passes 3) built.0) phase_one.1 built.1 results-IsMap t,
    lookup-results t,
    lookup-to_build t d,
    lookup-phase_one t h,
  )

  pub apply_desired-IsMap : IsMap m.sessions → IsMap (apply_desired env desired m).sessions
  unfolding apply_desired
  apply_desired-IsMap h =
      publish-IsMap (range_order (env.order m.passes 3) built.0) phase_one.1 built.1 (
        unpublish_stale-IsMap desired (range_order (env.order m.passes 0) m.sessions) m.sessions []
          h)

-- After a pass, the session of each tenant is the one it had, where the last Secret that holds a
-- kubeconfig for it still has the same hash; it is a fresh one of this pass, where that differs or
-- there was none and all the steps of a build succeed; and there is none otherwise.
pub lookup-reconcile_all :
    (env : Env) (m : Manager) (items : List Secret) (t : Bytes)
    → IsMap m.sessions
    → env.list_secrets m.passes ≡ ok items
    → lookup t (reconcile_all env m).1.sessions
      ≡ kept env m.passes t (snapshot_of env.sha256 (config_of t items)) (lookup t m.sessions)
unfolding reconcile_all lookup
lookup-reconcile_all env m items t h e =
    let desired = desired_from env.sha256 items [] in
    rw (e, reconcile_all)
      (lookup-apply_desired env desired m t (desired_from-IsMap env.sha256 items [] tt) h
        ∙ ground (arith, lookup-desired_from env.sha256 items [] t))

pub reconcile_all-IsMap :
    (env : Env) (m : Manager) → IsMap m.sessions → IsMap (reconcile_all env m).1.sessions
unfolding reconcile_all
reconcile_all-IsMap env m h =
    elim (env.list_secrets m.passes)
        as (λ r. env.list_secrets m.passes ≡ r → IsMap (reconcile_all env m).1.sessions) [
          | err e ↦ λ q. rw (q, reconcile_all) h
          | ok items ↦ λ q.
              rw (q, reconcile_all) (apply_desired-IsMap env (desired_from env.sha256 items []) m h)
        ]
      refl
