-- ===== src/Operator/Safety.antt =====
-- cmd/main.go: what a round of the orphan sweeper may delete.
use kubernetes_switchcloud.Base.{
  contains_string-append, Bool, true, false, not, ◌&&◌, ◌||◌, List, [], ◌∷◌, ◌++◌, Option, none,
  some, Bytes, is_empty, contains_string, bytes_eq, bytes_eq_iff, any_of, has_prefix, has_suffix,
  trim_prefix, trim_suffix, range_order, ◌≡◌, refl, ◌⊎◌, inl, inr, All, All-of_In, In, arith,
  Bool-cases, Option-cases,
}
use kubernetes_switchcloud.Cloud.Types.{
  Api, Call, Log, HelmRelease, Secret, Result, ok, err, Error, get_service, delete_secret,
}
use kubernetes_switchcloud.Cloud.Action.{request, try, ◌>>=◌}
use kubernetes_switchcloud.Cloud.Hoare.{
  Ensures, Any, OkMeets, return_ensures, fail_ensures, request-Any, request_ensures, bind_ensures,
  wrap_rule, if_ensures, for_each_ensures, map_order_ensures, calls_meet,
}
use kubernetes_switchcloud.Cloud.AnyResult.{IsRead, any_bind, try-Any}
use kubernetes_switchcloud.Multicluster.{kubeconfig_name_prefix, kubeconfig_suffix}
use kubernetes_switchcloud.Multicluster.Session.{Session}
use kubernetes_switchcloud.Multicluster.Manager.{Manager, tenant_client}
use kubernetes_switchcloud.Openstack.Sweep.Allowed.{Gone, IsQuiet, OrphanCall}
use kubernetes_switchcloud.Openstack.Sweep.Orphans.{sweep_orphans_ensures}
use kubernetes_switchcloud.Openstack.Sweep.Servers.{ServerCall, servers_ensures}
use kubernetes_switchcloud.Controller.ServiceReconciler.{tenant_namespace}
use kubernetes_switchcloud.Controller.ServiceReconciler.Steps.{resolve-Any, new_clients-Any}
use kubernetes_switchcloud.Operator.{
  known_from, has_none, first_of, list_known_clusters, sweep_secret,
  sweep_orphan_kubeconfig_secrets, ask_session, service_exists, sweep_round,
}

-- A release of the cluster that is not terminating.
abbrev pub is_live : Bytes → HelmRelease → Bool
is_live cluster hr = not hr.deleting && not (is_empty hr.app_name) && bytes_eq hr.app_name cluster

contains_string-known_from :
    (items : List HelmRelease) (known : List Bytes) (cluster : Bytes)
    → contains_string (known_from items known) cluster
      ≡ (contains_string known cluster || any_of (is_live cluster) items)
unfolding known_from any_of contains_string
contains_string-known_from [] known cluster = ground arith
contains_string-known_from (hr ∷ items) known cluster = ground (
  arith,
  bytes_eq_iff hr.app_name cluster,
  contains_string-append known (hr.app_name ∷ []) cluster,
  contains_string-known_from items known cluster,
  contains_string-known_from items (known ++ (hr.app_name ∷ [])) cluster,
)

both_ends : (a b : Bool) → not a || not b ≡ false → (a ≡ true) × (b ≡ true)
both_ends a b h = ground (arith, h)

module _ (api : Api) (manager : Log → Manager) where
  -- The known clusters: those with a release, in one listing, that is not terminating.
  abbrev pub IsKnown : List Bytes → Type 0
  IsKnown known =
      (log : Log) × (items : List HelmRelease) × (api.list_releases log tenant_namespace ≡ ok items)
      × ((cluster : Bytes) → contains_string known cluster ≡ any_of (is_live cluster) items)

  abbrev pub ListedSecret : Secret → Type 0
  ListedSecret s =
      (log : Log) × (items : List Secret) × (api.list_secrets log tenant_namespace ≡ ok items)
      × In s items

  -- A listed Secret that has the two ends of the name of a kubeconfig, for no known cluster.
  abbrev pub SecretCall : List Bytes → Call → Type 0
  SecretCall known (delete_secret namespace name) =
      (s : Secret) × (s.namespace ≡ namespace)
      × (s.name ≡ name)
      × ListedSecret s
      × (has_prefix name kubeconfig_name_prefix ≡ true)
      × (has_suffix name kubeconfig_suffix ≡ true)
      × (contains_string known
            (trim_suffix (trim_prefix name kubeconfig_name_prefix) kubeconfig_suffix)
          ≡ false)
  SecretCall known _ = ⊥

  -- What a round may call.
  abbrev pub RoundCall : Call → Type 0
  RoundCall c =
      IsRead c
      ⊎ ((known : List Bytes) × IsKnown known
          × (ServerCall api known c
              ⊎ (OrphanCall api known (some (service_exists api manager)) c ⊎ SecretCall known c)))

  reads : (c : Call) → IsRead c → RoundCall c
  reads c h = inl h

  answer_meets :
      {A : Type 0} {Q : A → Type 0} (r : Result A) → ((a : A) → r ≡ ok a → Q a) → OkMeets Q r
  answer_meets (ok a) h = h a refl
  answer_meets (err e) h = tt

  list_known_clusters_ensures : Ensures RoundCall (list_known_clusters api) IsKnown
  unfolding list_known_clusters contains_string
  list_known_clusters_ensures =
      bind_ensures
        (wrap_rule _ (
          request_ensures
            {Q = λ items. (log : Log) × (api.list_releases log tenant_namespace ≡ ok items)} _ _
            (inl tt)
            (λ log. answer_meets (api.list_releases log tenant_namespace) (λ items e. (log, e)))))
        (λ items h.
          return_ensures (known_from items [])
            (h.0, items, h.1, λ cluster. contains_string-known_from items [] cluster))

  asks_ensures :
      (P : Call → Type 0)
      → ((t n s : Bytes) → P (get_service t n s))
      → (c n s : Bytes) (o : Option Session) → Ensures P (ask_session api c n s o) Any
  unfolding ask_session
  asks_ensures P gets c n s none = return_ensures true tt
  asks_ensures P gets c n s (some sess) = any_bind (try-Any (request-Any _ _ (gets c n s))) (elim [
    | ok svc ↦ return_ensures true tt
    | err e ↦ if_ensures e.not_found (λ _. return_ensures false tt) (λ _. fail_ensures e)
  ])

  service_exists-IsQuiet : IsQuiet (some (service_exists api manager))
  unfolding service_exists
  service_exists-IsQuiet P gets c n s = record {
    run = λ log h. (asks_ensures P gets c n s (tenant_client c (manager log))).run log h;
  }

  sweep_secret_ensures :
      (known : List Bytes) (s : Secret)
      → IsKnown known
      → ListedSecret s
      → Ensures RoundCall (sweep_secret api known s) Any
  unfolding sweep_secret
  sweep_secret_ensures known s k l =
      let cluster = trim_suffix (trim_prefix s.name kubeconfig_name_prefix) kubeconfig_suffix in
      if_ensures
        (not (has_prefix s.name kubeconfig_name_prefix)
          || not (has_suffix s.name kubeconfig_suffix))
        (λ _. return_ensures tt tt)
        (λ named.
          if_ensures (is_empty cluster) (λ _. return_ensures tt tt)
            (λ _.
              if_ensures (contains_string known cluster) (λ _. return_ensures tt tt)
                (λ dead.
                  let (pre, suf) = both_ends _ _ named in
                  let call : RoundCall (delete_secret s.namespace s.name) =
                    inr (known, k, inr (inr (s, refl, refl, l, pre, suf, dead))) in
                  any_bind (try-Any (request-Any (delete_secret s.namespace s.name) _ call)) (elim [
                    | ok _ ↦ return_ensures tt tt
                    | err e ↦
                        if_ensures (not e.not_found) (λ _. wrap_rule _ (fail_ensures e))
                          (λ _. return_ensures tt tt)
                  ]))))

  secrets_ensures :
      (known : List Bytes)
      → IsKnown known
      → Ensures RoundCall (sweep_orphan_kubeconfig_secrets api known) Any
  unfolding sweep_orphan_kubeconfig_secrets
  secrets_ensures known k =
      bind_ensures
        (wrap_rule _ (
          request_ensures {Q = All ListedSecret} _ _ (inl tt) (λ log.
            answer_meets (api.list_secrets log tenant_namespace)
              (λ items e. All-of_In ListedSecret items (λ s i. (log, items, e, i))))))
        (λ items h. for_each_ensures items h (λ s l. sweep_secret_ensures known s k l))

  sweep_round_ensures : Ensures RoundCall (sweep_round api manager) Any
  unfolding sweep_round
  sweep_round_ensures = bind_ensures list_known_clusters_ensures (λ known k.
      if_ensures (has_none known) (λ _. return_ensures tt tt)
        (λ _. any_bind (map_order_ensures api.order) (λ order.
          any_bind (resolve-Any api RoundCall reads (first_of (range_order order known))) (λ cfg.
            if_ensures (is_empty cfg.creds.auth_url) (λ _. return_ensures tt tt)
              (λ _. any_bind (new_clients-Any api RoundCall reads cfg.creds) (λ has_compute.
                any_bind
                  (servers_ensures api known has_compute RoundCall (λ c h. inr (known, k, inl h)))
                  (λ _.
                    any_bind
                      (sweep_orphans_ensures api known (some (service_exists api manager)) RoundCall
                        (λ c h. inr (known, k, inr (inl h))) service_exists-IsQuiet)
                      (λ _. secrets_ensures known k))))))))

-- Every call of one round of the orphan sweeper, for any answers and whatever sessions come and go:
-- it reads, or it is made with known clusters, which are just those that one listing has a release
-- of that is not terminating, and deletes a listed server that none of them claims, what an orphan
-- sweep may delete (of a cluster that is not known, or of a Service that the sweep's question has
-- been answered not to exist), or a listed Secret with the name of the kubeconfig of a cluster that
-- is not known.
pub sweep_round_calls :
    (api : Api) (manager : Log → Manager)
    → All (RoundCall api manager) (sweep_round api manager []).1
sweep_round_calls api manager =
    calls_meet (RoundCall api manager) Any (sweep_round api manager [])
      ((sweep_round_ensures api manager).run [] tt)

-- The tenant has a session, and its apiserver does not find the Service.
abbrev pub IsGone : Api → (Log → Manager) → Bytes → Bytes → Bytes → Type 0
IsGone api manager cluster namespace name =
    (log : Log) × (sess : Session) × (e : Error) × (tenant_client cluster (manager log) ≡ some sess)
    × (api.get_service log cluster namespace name ≡ err e)
    × (e.not_found ≡ true)

-- The sweeper's question is answered with no only where the tenant has a session at that time and
-- its apiserver answers that it does not find the Service; a session that is missing and any other
-- error are no such answer.
pub service_exists-Gone :
    (api : Api) (manager : Log → Manager) (cluster namespace name : Bytes)
    → Gone (some (service_exists api manager)) cluster namespace name
    → IsGone api manager cluster namespace name
unfolding service_exists ask_session ◌>>=◌ try request
service_exists-Gone api manager cluster namespace name (log, log', h) =
    elim (Option-cases (tenant_client cluster (manager log))) [
      | inl e ↦ absurd (cc (rw (e, service_exists) at h))
      | inr (sess, e) ↦
          elim (api.get_service log cluster namespace name)
              as (λ r.
                api.get_service log cluster namespace name ≡ r
                → IsGone api manager cluster namespace name) [
                  | ok svc ↦ λ q.
                      absurd (cc (rw (e, q, service_exists, ask_session, ◌>>=◌, try, request) at h))
                  | err x ↦ λ q. elim (Bool-cases x.not_found) [
                    | inl n ↦ (log, sess, x, e, q, n)
                    | inr n ↦
                        absurd
                          (cc (rw (e, q, n, service_exists, ask_session, ◌>>=◌, try, request) at h))
                  ]
                ]
            refl
    ]
