-- ===== src/Openstack/Sweep/Servers.antt =====
-- Which servers SweepOrphanNovaServers deletes.
use kubernetes_switchcloud.Base.{
  Bool, true, false, not, ◌&&◌, List, [], ◌∷◌, ◌++◌, Bytes, lit, ◌≡◌, refl, All, In, here, there,
  has_prefix, is_empty, Bool-cases, inl, inr,
}
use kubernetes_switchcloud.Cloud.Types.{Api, Call, Log, Server, list_servers, delete_server}
use kubernetes_switchcloud.Cloud.Hoare.{
  Ensures, Any, return_ensures, lift_ensures, request-Any, listing_ensures, bind_ensures, wrap_rule,
  if_ensures, for_each_ensures, calls_meet,
}
use kubernetes_switchcloud.Cloud.Pages.{AllPages, InPages, AllPages-of_InPages, collect-OkMeets}
use kubernetes_switchcloud.Openstack.Names.{ksc_server_name_prefix, is_claimed_by_known}
use kubernetes_switchcloud.Openstack.Sweep.{delete_orphan_server, sweep_orphan_nova_servers}

-- No cluster of the list, an empty name aside, has a server of that name.
abbrev pub NotClaimed : Bytes → List Bytes → Type 0
NotClaimed name known =
    (cluster : Bytes)
    → In cluster known
    → is_empty cluster ≡ false
    → has_prefix name (ksc_server_name_prefix ++ (cluster ++ lit "-")) ≡ false

second_false : (a b : Bool) → (not a && b) ≡ false → a ≡ false → b ≡ false
second_false true b h e = absurd (cc e)
second_false false b h e = h

both_parts : (a b : Bool) → (a && not b) ≡ true → (a ≡ true) × (b ≡ false)
both_parts true true e = absurd (cc e)
both_parts true false e = (refl, refl)
both_parts false b e = absurd (cc e)

unclaimed :
    (name : Bytes) (known : List Bytes)
    → is_claimed_by_known name known ≡ false
    → NotClaimed name known
unfolding is_claimed_by_known
unclaimed name [] h c i e = elim i [ ]
unclaimed name (k ∷ known) h c i e =
    elim (Bool-cases
      (not (is_empty k) && has_prefix name (ksc_server_name_prefix ++ (k ++ lit "-")))) [
        | inl t ↦ absurd (cc (rw t at h))
        | inr f ↦ elim i [
          | here same ↦ named c k same e f
          | there j ↦ unclaimed name known (rw f at h) c j e
        ]
      ]
  where
    named :
        (c k : Bytes)
        → c ≡ k
        → is_empty c ≡ false
        → (not (is_empty k) && has_prefix name (ksc_server_name_prefix ++ (k ++ lit "-"))) ≡ false
        → has_prefix name (ksc_server_name_prefix ++ (c ++ lit "-")) ≡ false
    named c k same e f = rw same (second_false (is_empty k) _ f (rw same at e))

module _ (api : Api) (known : List Bytes) where
  -- The server has been listed, its name has the prefix, and no known cluster claims it.
  abbrev pub ServerCall : Call → Type 0
  ServerCall list_servers = Unit
  ServerCall (delete_server id) =
      (s : Server) × (s.id ≡ id)
      × ((log : Log) × InPages s (api.list_servers log))
      × (has_prefix s.name ksc_server_name_prefix ≡ true)
      × NotClaimed s.name known
  ServerCall _ = ⊥

  split_test :
      (s : Server)
      → (has_prefix s.name ksc_server_name_prefix && not (is_claimed_by_known s.name known)) ≡ true
      → (has_prefix s.name ksc_server_name_prefix ≡ true)
        × (is_claimed_by_known s.name known ≡ false)
  split_test s e = both_parts (has_prefix s.name ksc_server_name_prefix) _ e

  pub servers_ensures :
      (has_compute : Bool) (P : Call → Type 0)
      → ((c : Call) → ServerCall c → P c)
      → Ensures P (sweep_orphan_nova_servers api has_compute known) Any
  unfolding sweep_orphan_nova_servers delete_orphan_server
  servers_ensures has_compute P allows =
      if_ensures (not has_compute) (λ _. return_ensures tt tt)
        (λ _.
          bind_ensures
            (listing_ensures {Q = AllPages (λ s. (log : Log) × InPages s (api.list_servers log))} _
              _ (allows _ tt) (λ log. AllPages-of_InPages _ _ (λ s i. (log, i))))
            (λ pages h.
              bind_ensures (wrap_rule _ (lift_ensures _ (collect-OkMeets _ _ pages h)))
                (λ orphans q. for_each_ensures orphans q (λ s o.
                  let (named, free) = split_test s o.1 in
                  wrap_rule _ (
                    request-Any _ _
                      (allows _ (s, refl, o.0, named, unclaimed s.name known free)))))))

-- For any answers of Nova: SweepOrphanNovaServers lists servers and deletes only ones that were
-- listed, whose name has the prefix of a cluster's servers, and whose name does not begin with the
-- prefix, the name of a known cluster and a dash.
pub sweep_orphan_nova_servers_calls :
    (api : Api) (known : List Bytes) (has_compute : Bool)
    → All (ServerCall api known) (sweep_orphan_nova_servers api has_compute known []).1
sweep_orphan_nova_servers_calls api known has_compute =
    calls_meet (ServerCall api known) Any (sweep_orphan_nova_servers api has_compute known [])
      ((servers_ensures api known has_compute (ServerCall api known) (λ c h. h)).run [] tt)
