-- ===== src/Multicluster/Manager/Tidy.antt =====
-- manager.go and session.go: what holds of the sessions before and after each pass.
use kubernetes_switchcloud.Base.{
  [], none, some, Bytes, bytes_key, lookup, range_order, ◌≡◌, sym, ◌∙◌, ap, ◌<◌, arith,
  Option-cases, inl, inr, ◌⊎◌, IsMap, lookup-range_order, range_order-IsMap,
}
use kubernetes_switchcloud.Multicluster.Session.{Session}
use kubernetes_switchcloud.Multicluster.Manager.{Desired, Env, Manager, stop_all_of, apply_desired}
use kubernetes_switchcloud.Multicluster.Manager.Phases.{succeeded, lookup-publish}
use kubernetes_switchcloud.Multicluster.Manager.Published.{
  phase_one, to_build, built, lookup-phase_one, to_build-IsMap, lookup-to_build, results-IsMap,
  lookup-results, lookup-apply_desired, apply_desired-IsMap,
}
use kubernetes_switchcloud.Multicluster.Manager.Running.{
  NoneYet, OwnKeys, holds, is_in, is_in-build_all, is_in-stop_all_of, is_in-unpublish_stale,
  publish-running,
}

-- Exactly the published sessions run, each under its tenant and made by an earlier pass.
pub record IsTidy (m : Manager) : Type 0 where
  pub one_each : IsMap m.sessions
  pub own_keys : OwnKeys m.sessions
  pub earlier : (t : Bytes) (s : Session) → lookup t m.sessions ≡ some s → s.built_in < m.passes
  pub just_published : (s : Session) → is_in s m.running ≡ holds s (lookup s.tenant m.sessions)

module _ (env : Env) (desired : Desired) (m : Manager) (d : IsMap desired) (h : IsTidy m) where
  is_in-phase_one :
      (x : Session)
      → is_in x (stop_all_of (phase_one env desired m).0 m.running)
        ≡ holds x (lookup x.tenant (phase_one env desired m).1)
  unfolding is_in
  is_in-phase_one x =
      let choice = env.order m.passes 0 in
      let entries = range_order choice m.sessions in
      let o : OwnKeys entries =
        λ t s e. h.own_keys t s (sym (lookup-range_order choice m.sessions t h.one_each) ∙ e) in
      ground (
        arith,
        is_in-stop_all_of x (phase_one env desired m).0 m.running,
        is_in-unpublish_stale desired entries m.sessions [] x
            (range_order-IsMap choice m.sessions h.one_each) o,
        lookup-range_order choice m.sessions x.tenant h.one_each,
        lookup-phase_one env desired m x.tenant h.one_each,
        h.just_published x,
      )

  none_yet :
      NoneYet m.passes
        (range_order (env.order m.passes 2) (to_build env desired m))
        (stop_all_of (phase_one env desired m).0 m.running)
  none_yet x b t = ground (
    arith,
    b,
    t,
    lookup-range_order (env.order m.passes 2) (to_build env desired m) x.tenant
        (to_build-IsMap env desired m),
    lookup-to_build env desired m x.tenant d,
    is_in-phase_one x,
  )

  free_of_results :
      (t : Bytes)
      → (lookup t (phase_one env desired m).1 ≡ none)
        ⊎ (succeeded (lookup t (range_order (env.order m.passes 3) (built env desired m).0)) ≡ none)
  free_of_results t = elim (Option-cases (lookup t (phase_one env desired m).1)) [
    | inl e ↦ inl e
    | inr (s, e) ↦
        inr (ground (arith, e, lookup-results env desired m t, lookup-to_build env desired m t d))
  ]

  is_in-apply_desired :
      (x : Session)
      → is_in x (apply_desired env desired m).running
        ≡ holds x (lookup x.tenant (apply_desired env desired m).sessions)
  unfolding apply_desired
  is_in-apply_desired x =
      let b =
        range_order-IsMap (env.order m.passes 2) (to_build env desired m)
          (to_build-IsMap env desired m) in
      ground (
        arith,
        ap (is_in x) (
            publish-running (range_order (env.order m.passes 3) (built env desired m).0)
              (phase_one env desired m).1 (built env desired m).1 (results-IsMap env desired m)
              free_of_results),
        is_in-build_all env m.passes (range_order (env.order m.passes 2) (to_build env desired m))
            (stop_all_of (phase_one env desired m).0 m.running) b none_yet x,
        lookup-range_order (env.order m.passes 2) (to_build env desired m) x.tenant
            (to_build-IsMap env desired m),
        lookup-to_build env desired m x.tenant d,
        is_in-phase_one x,
        lookup-phase_one env desired m x.tenant h.one_each,
        lookup-publish (range_order (env.order m.passes 3) (built env desired m).0)
            (phase_one env desired m).1 (built env desired m).1 (results-IsMap env desired m)
            x.tenant,
        lookup-results env desired m x.tenant,
      )

  pub apply_desired-IsTidy : IsTidy (apply_desired env desired m)
  unfolding apply_desired
  apply_desired-IsTidy = record {
    one_each = apply_desired-IsMap env desired m h.one_each;
    own_keys = λ t s e.
        ground (arith, e, lookup-apply_desired env desired m t d h.one_each, h.own_keys t s);
    earlier = λ t s e.
        ground (arith, e, lookup-apply_desired env desired m t d h.one_each, h.earlier t s);
    just_published = is_in-apply_desired;
  }
