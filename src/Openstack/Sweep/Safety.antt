-- ===== src/Openstack/Sweep/Safety.antt =====
-- What SweepOrphans deletes: each deletion is traced back to a listing and to the reason why the
-- resource is nobody's.
pub mod Rules
use kubernetes_switchcloud.Base.{
  Bool, true, false, not, ◌≡◌, refl, sym, ap, ◌∙◌, ◌⊎◌, inl, inr, List, [], ◌∷◌, ◌++◌, Option, none,
  some, Bytes, lit, All, All-append, contains_string, has_prefix, trim_prefix, trim_prefix-split,
  bytes_eq, bytes_eq_iff, bytes_key, lookup, insert, lookup-insert, contains_byte, cut_byte-append,
  if◌then◌else◌, Bool-cases, Option-cases, arith, not→false, not→true, subst,
}
use kubernetes_switchcloud.Cloud.Types.{
  Api, Call, Log, LoadBalancer, FloatingIp, SecGroup, Result, ok, err, Error, Pages, list_lbs,
  delete_lb, list_fips, delete_fip, list_sgs, delete_sg, get_service,
}
use kubernetes_switchcloud.Cloud.Action.{M, try, caught}
use kubernetes_switchcloud.Cloud.Hoare.{
  Ensures, Any, OkMeets, OkMeets-Any, return_ensures, fail_ensures, lift_ensures, request-Any,
  listing_ensures, bind_ensures, wrap_rule, if_ensures, try_ensures, for_each_ensures,
  weaken_ensures, Any-ensures, Outcome, option_ensures,
}
use kubernetes_switchcloud.Cloud.Pages.{
  AllPages, InPages, AllPages-of_InPages, SomePasses, Passes, find_in_pages-OkMeets,
  collect-OkMeets,
}
use kubernetes_switchcloud.Openstack.Names.{
  managed_name_prefix, cluster_sg_name_prefix, cluster_sg_name, service_lb_name,
  parse_cluster_from_lb_name, parse_service_from_tag,
}
use kubernetes_switchcloud.Openstack.Names.RoundTrip.{
  parse_cluster_from_lb_name_sound, parse_service_from_tag_sound,
  parse_cluster_from_lb_name-service_lb_name, IsToken,
}
use kubernetes_switchcloud.Openstack.FloatingIp.Calls.{FipOnPort, delete_floating_ip_ensures}
use kubernetes_switchcloud.Openstack.SecurityGroup.{find_sg_by_name}
use kubernetes_switchcloud.Openstack.Sweep.{
  ServiceExists, Cache, Scan, cache_key, unless_conflict, sweep_lb, sweep_cluster_resources,
  exists_cached, scan_lb, delete_orphan_lb, scan_fip, delete_orphan_fip, sweep_orphan_floating_ips,
  sweep_clusters, sweep_sg, sweep_orphans, sweep_fips_if, fold_pages,
}
use kubernetes_switchcloud.Openstack.Sweep.Allowed.{
  Gone, IsQuiet, ListedLb, ListedSg, ClusterGone, ServiceGone, OrphanCall,
}
use Rules.{fold_pages_ensures, unless_conflict_ensures, cache_key_injective}

module _ (api : Api) (known : List Bytes) (se : Option ServiceExists) where
  -- What the cache says of a Service is what the callback has said.
  abbrev pub CacheTrue : Cache → Type 0
  CacheTrue cache =
      (c n s : Bytes)
      → contains_byte b'/' c ≡ false
      → contains_byte b'/' n ≡ false
      → lookup (cache_key c n s) cache ≡ some false
      → Gone se c n s

  CacheTrue-insert :
      (cache : Cache) (c n s : Bytes) (b : Bool)
      → CacheTrue cache
      → contains_byte b'/' c ≡ false
      → contains_byte b'/' n ≡ false
      → (b ≡ false → Gone se c n s)
      → CacheTrue (insert (cache_key c n s) b cache)
  CacheTrue-insert cache c n s b t hc hn g c' n' s' hc' hn' e =
      elim (Bool-cases (bytes_eq (cache_key c n s) (cache_key c' n' s'))) [
        | inl same ↦
            let keys = (bytes_eq_iff (cache_key c n s) (cache_key c' n' s')).0 same in
            let (ec, en, es) = cache_key_injective c n s c' n' s' hc hn hc' hn' keys in
            rw (← ec, ← en, ← es) (g (cc (rw (lookup-insert, same) at e)))
        | inr other ↦ t c' n' s' hc' hn' (rw (lookup-insert, other) at e)
      ]

  -- The result of a lookup of a Service, with the cache behind it.
  abbrev pub Answer : Bytes → Bytes → Bytes → Bool × Cache → Type 0
  Answer c n s (exists, cache) = (exists ≡ false → Gone se c n s) × CacheTrue cache

module _ (api : Api) (known : List Bytes) (asks : ServiceExists) (P : Call → Type 0)
    (allows : (c : Call) → OrphanCall api known (some asks) c → P c)
    (quiet : IsQuiet (some asks)) where
  ask_ensures :
      (c n s : Bytes) → Ensures P (try (asks c n s)) (λ r. r ≡ ok false → Gone (some asks) c n s)
  unfolding try
  ask_ensures c n s = record { run = λ log h. go log (asks c n s log) refl (q.run log h) }
    where
      q : Ensures P (asks c n s) Any
      q = quiet P (λ t n s. allows (get_service t n s) tt) c n s

      go :
          (log : Log) (r : Result Bool × Log)
          → asks c n s log ≡ r
          → Outcome (λ a l. Any a × All P l) (All P) r
          → Outcome (λ a l. (a ≡ ok false → Gone (some asks) c n s) × All P l) (All P) (caught r)
      go log (ok b, log') e h = ((λ f. (log, log', ground (arith, e, f))), h.1)
      go log (err x, log') e h = ((λ f. cc f), h)

  pub exists_cached_ensures :
      (cache : Cache) (c n s : Bytes)
      → CacheTrue api known (some asks) cache
      → contains_byte b'/' c ≡ false
      → contains_byte b'/' n ≡ false
      → Ensures P (exists_cached api asks cache c n s) (Answer api known (some asks) c n s)
  unfolding exists_cached
  exists_cached_ensures cache c n s t hc hn = elim (Option-cases (lookup (cache_key c n s) cache)) [
    | inl e ↦
        rw (e, exists_cached)
          (bind_ensures (ask_ensures c n s) (elim [
            | ok b ↦ λ g. return_ensures _ (
              (λ f. g (ap ok f)),
              CacheTrue-insert api known (some asks) cache c n s b t hc hn (λ f. g (ap ok f)),
            )
            | err x ↦ λ g. return_ensures _ (
              (λ f. cc f),
              CacheTrue-insert api known (some asks) cache c n s true t hc hn (λ f. cc f),
            )
          ]))
    | inr (b, e) ↦ rw (e, exists_cached) (return_ensures _ ((λ f. t c n s hc hn (rw (← f) e)), t))
  ]

-- A cluster that is not known.
abbrev pub DeadCluster : List Bytes → Bytes → Type 0
DeadCluster known cluster = IsToken cluster × (contains_string known cluster ≡ false)

-- What the first pass has gathered, with the reasons.
pub record ScanTrue (api : Api) (known : List Bytes) (se : Option ServiceExists) (s : Scan)
    : Type 0 where
  pub clusters : All (DeadCluster known) s.orphan_clusters
  pub lbs :
      All (λ lb. ListedLb api known se lb × ServiceGone api known se lb.name) s.orphan_service_lbs
  pub answers : CacheTrue api known se s.cache

module _ (api : Api) (known : List Bytes) (se : Option ServiceExists) where
  add_cluster :
      (s : Scan) (cluster : Bytes)
      → ScanTrue api known se s
      → DeadCluster known cluster
      → ScanTrue api known se (record s { orphan_clusters = s.orphan_clusters ++ (cluster ∷ []) })
  add_cluster s cluster i dead = record {
    clusters = All-append _ s.orphan_clusters (cluster ∷ []) i.clusters (dead, tt);
    lbs = i.lbs;
    answers = i.answers;
  }

  add_lb :
      (s : Scan) (lb : LoadBalancer) (c n sv : Bytes) (exists : Bool) (cache : Cache)
      → ScanTrue api known se s
      → ListedLb api known se lb
      → lb.name ≡ service_lb_name c n sv
      → contains_string known c ≡ true
      → Answer api known se c n sv (exists, cache)
      → ScanTrue api known se (record s {
        orphan_service_lbs =
            if exists then s.orphan_service_lbs else s.orphan_service_lbs ++ (lb ∷ []);
        cache = cache;
      })
  add_lb s lb c n sv true cache i l e k a = record {
    clusters = i.clusters;
    lbs = i.lbs;
    answers = a.1;
  }
  add_lb s lb c n sv false cache i l e k a = record {
    clusters = i.clusters;
    lbs = All-append _ s.orphan_service_lbs (lb ∷ []) i.lbs ((l, (c, n, sv, e, k, a.0 refl)), tt);
    answers = a.1;
  }

-- The cluster that the two parsers find is one.
clusters_agree :
    (name cluster c n s : Bytes)
    → parse_cluster_from_lb_name name ≡ some cluster
    → parse_service_from_tag name ≡ some (c, n, s)
    → cluster ≡ c
clusters_agree name cluster c n s e f =
    let (named, tc, tn, _, _) = parse_service_from_tag_sound name c n s f in
    let both : some cluster ≡ some c =
      sym e
      ∙ (ap parse_cluster_from_lb_name named
          ∙ parse_cluster_from_lb_name-service_lb_name c n s tc) in
    cc both

module _ (api : Api) (known : List Bytes) where
  pub scan_lb_ensures :
      (se : Option ServiceExists) (P : Call → Type 0)
      → ((c : Call) → OrphanCall api known se c → P c)
      → IsQuiet se
      → (s : Scan) (lb : LoadBalancer) → ScanTrue api known se s
      → ListedLb api known se lb
      → Ensures P (scan_lb api known se s lb) (ScanTrue api known se)
  unfolding scan_lb
  scan_lb_ensures none P allows quiet s lb i l =
      if_ensures _ (λ _. return_ensures s i)
        (λ _.
          option_ensures (parse_cluster_from_lb_name lb.name) (λ _. return_ensures s i)
            (λ cluster e.
              if_ensures (not (contains_string known cluster))
                (λ dead. return_ensures _ (
                  add_cluster api known none s cluster i
                    (parse_cluster_from_lb_name_sound lb.name cluster e, not→false _ dead)))
                (λ _. return_ensures s i)))
  scan_lb_ensures (some asks) P allows quiet s lb i l =
      if_ensures _ (λ _. return_ensures s i)
        (λ _.
          option_ensures (parse_cluster_from_lb_name lb.name) (λ _. return_ensures s i)
            (λ cluster e.
              if_ensures (not (contains_string known cluster))
                (λ dead. return_ensures _ (
                  add_cluster api known (some asks) s cluster i
                    (parse_cluster_from_lb_name_sound lb.name cluster e, not→false _ dead)))
                (λ alive.
                  option_ensures (parse_service_from_tag lb.name) (λ _. return_ensures s i)
                    (λ tag f.
                      let (named, tc, tn, _, _) =
                        parse_service_from_tag_sound lb.name tag.0 tag.1 tag.2 f in
                      let same = clusters_agree lb.name cluster tag.0 tag.1 tag.2 e f in
                      let live =
                        subst (λ k. contains_string known k ≡ true) same (not→true _ alive) in
                      bind_ensures
                        (exists_cached_ensures api known asks P allows quiet s.cache tag.0 tag.1
                          tag.2 i.answers tc.no_slash tn.no_slash)
                        (λ r a. return_ensures _ (
                          add_lb api known (some asks) s lb tag.0 tag.1 tag.2 r.0 r.1 i l named live
                            a))))))
