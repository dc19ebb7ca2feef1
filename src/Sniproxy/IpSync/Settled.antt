-- ===== src/Sniproxy/IpSync/Settled.antt =====
-- ipsync.go: what a sync sends, and what the next one does.
use kubernetes_switchcloud.Base.{
  Bool, true, false, not, List, [], ◌∷◌, none, some, Bytes, lit, bytes_eq, bytes_eq_iff,
  if◌then◌else◌, ◌≡◌, refl, arith, Bool-cases, inl, inr, ◌⊎◌,
}
use kubernetes_switchcloud.Cloud.Types.{ok, err}
use kubernetes_switchcloud.Sniproxy.IpSync.{
  Node, RouterService, IpSyncEnv, sort_strings, wanted_ips, lists_eq, deep_equal, sync_external_ips,
}
use kubernetes_switchcloud.Sniproxy.IpSync.Sorted.{sort_strings-sorted}
use kubernetes_switchcloud.Sniproxy.IpSync.Addresses.{wanted_ips-IsAscending}

lists_eq_refl : (ss : List Bytes) → lists_eq ss ss ≡ true
unfolding lists_eq
lists_eq_refl [] = refl
lists_eq_refl (s ∷ ss) = ground (arith, bytes_eq_iff s s, lists_eq_refl ss)

lists_eq→eq : (ss ts : List Bytes) → lists_eq ss ts ≡ true → ss ≡ ts
unfolding lists_eq
lists_eq→eq [] [] h = refl
lists_eq→eq [] (t ∷ ts) h = absurd (cc h)
lists_eq→eq (s ∷ ss) [] h = absurd (cc h)
lists_eq→eq (s ∷ ss) (t ∷ ts) h = ground (arith, h, bytes_eq_iff s t, lists_eq→eq ss ts)

abbrev pub no_ips : List Bytes → Bool
no_ips [] = true
no_ips (s ∷ ss) = false

deep_equal_self : (ips : List Bytes) → deep_equal ips ips ≡ not (no_ips ips)
unfolding deep_equal
deep_equal_self [] = refl
deep_equal_self (ip ∷ ips) = lists_eq_refl (ip ∷ ips)

deep_equal→eq : (current ips : List Bytes) → deep_equal current ips ≡ true → current ≡ ips
unfolding deep_equal
deep_equal→eq current [] h = absurd (cc h)
deep_equal→eq current (ip ∷ ips) h = lists_eq→eq current (ip ∷ ips) h

no_ips_empty : (ips : List Bytes) → no_ips ips ≡ true → ips ≡ []
no_ips_empty [] h = refl
no_ips_empty (ip ∷ ips) h = absurd (cc h)

-- Where the nodes can be listed and the Service read, is no load balancer, and has the wanted
-- addresses as its externalIPs, a sync sends nothing, unless no address is wanted: then it sends the
-- patch again that takes the externalIPs away.
pub sync_external_ips_settled :
    (env : IpSyncEnv) (nodes : List Node) (svc : RouterService)
    → env.list_nodes ≡ ok nodes
    → env.get_service ≡ ok svc
    → bytes_eq svc.type (lit "LoadBalancer") ≡ false
    → svc.external_ips ≡ wanted_ips nodes
    → (sync_external_ips env).1 ≡ (if no_ips (wanted_ips nodes) then some [] else none)
unfolding sync_external_ips
sync_external_ips_settled env nodes svc n s t e =
    let sorted = sort_strings-sorted (wanted_ips nodes) (wanted_ips-IsAscending nodes).0 in
    let same = deep_equal_self (wanted_ips nodes) in
    rw (n, sync_external_ips)
      (rw (s, t, e, sorted) (ground (arith, same, no_ips_empty (wanted_ips nodes))))

-- The Service has been told the wanted addresses.
abbrev pub IsTold : IpSyncEnv → List Node → Type 0
IsTold env nodes =
    ((sync_external_ips env).1 ≡ some (wanted_ips nodes))
    × (env.patch_service (wanted_ips nodes) ≡ ok tt)

abbrev pub Succeeded : IpSyncEnv → Type 0
Succeeded env =
    (nodes : List Node) × (svc : RouterService) × (env.list_nodes ≡ ok nodes)
    × (env.get_service ≡ ok svc)
    × ((bytes_eq svc.type (lit "LoadBalancer") ≡ true)
        ⊎ ((sort_strings svc.external_ips ≡ wanted_ips nodes) ⊎ IsTold env nodes))

-- Where a sync succeeds, the nodes were listed and the Service read, and the Service is a load
-- balancer, or its externalIPs are the wanted addresses in some order, or it was told the wanted
-- addresses by a patch that was accepted.
pub sync_external_ips_succeeds :
    (env : IpSyncEnv) → (sync_external_ips env).0 ≡ ok tt → Succeeded env
unfolding sync_external_ips
sync_external_ips_succeeds env h =
    elim env.list_nodes as (λ r. env.list_nodes ≡ r → Succeeded env) [
      | err e ↦ λ n. absurd (cc (rw (n, sync_external_ips) at h))
      | ok nodes ↦ λ n.
          elim env.get_service as (λ r. env.get_service ≡ r → Succeeded env) [
            | err e ↦ λ s. absurd (cc (rw (n, s, sync_external_ips) at h))
            | ok svc ↦ λ s. (
              nodes,
              svc,
              n,
              s,
              elim (Bool-cases (bytes_eq svc.type (lit "LoadBalancer"))) [
                | inl t ↦ inl t
                | inr t ↦
                    inr
                      (elim (Bool-cases
                        (deep_equal (sort_strings svc.external_ips) (wanted_ips nodes))) [
                          | inl d ↦
                              inl
                                (deep_equal→eq (sort_strings svc.external_ips) (wanted_ips nodes) d)
                          | inr d ↦ inr (
                              elim (env.patch_service (wanted_ips nodes))
                                  as (λ r.
                                    env.patch_service (wanted_ips nodes) ≡ r → IsTold env nodes) [
                                      | err e ↦ λ q.
                                          absurd (cc (rw (n, s, t, d, q, sync_external_ips) at h))
                                      | ok _ ↦ λ q. (rw (n, s, t, d, q, sync_external_ips) refl, q)
                                    ]
                                refl)
                        ])
              ],
            )
          ]
            refl
    ]
      refl
