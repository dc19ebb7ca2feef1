-- ===== src/Openstack/Sweep/Orphans.antt =====
-- SweepOrphans as a whole, by the calls that it makes.
use kubernetes_switchcloud.Base.{
  Bool, true, false, not, ◌≡◌, refl, inl, inr, List, [], ◌∷◌, ◌++◌, Option, none, some, Bytes, All,
  All-append, contains_string, lookup, has_prefix, trim_prefix, trim_prefix-split, if◌then◌else◌,
  not→true,
}
use kubernetes_switchcloud.Cloud.Types.{Api, Call, LoadBalancer, FloatingIp, SecGroup}
use kubernetes_switchcloud.Cloud.Hoare.{
  Ensures, Any, return_ensures, request-Any, listing_ensures, bind_ensures, wrap_rule, if_ensures,
  option_ensures, try_ensures, for_each_ensures, calls_meet,
}
use kubernetes_switchcloud.Cloud.Pages.{AllPages, AllPages-of_InPages}
use kubernetes_switchcloud.Openstack.Names.{
  cluster_sg_name_prefix, cluster_sg_name, parse_service_from_tag,
}
use kubernetes_switchcloud.Openstack.Names.RoundTrip.{parse_service_from_tag_sound}
use kubernetes_switchcloud.Openstack.FloatingIp.Calls.{FipOnPort}
use kubernetes_switchcloud.Openstack.Sweep.{
  ServiceExists, Cache, sweep_cluster_resources, scan_lb, delete_orphan_lb, scan_fip,
  delete_orphan_fip, sweep_orphan_floating_ips, sweep_clusters, sweep_sg, sweep_orphans,
  sweep_fips_if,
}
use kubernetes_switchcloud.Openstack.Sweep.Cluster.{sweep_cluster_resources_ensures}
use kubernetes_switchcloud.Openstack.Sweep.Allowed.{
  IsQuiet, ListedLb, ListedSg, ServiceGone, OrphanCall,
}
use kubernetes_switchcloud.Openstack.Sweep.Safety.{
  CacheTrue, DeadCluster, ScanTrue, exists_cached_ensures, scan_lb_ensures,
}
use kubernetes_switchcloud.Openstack.Sweep.Safety.Rules.{
  fold_pages_ensures, unless_conflict_ensures,
}

module _ (api : Api) (known : List Bytes) (se : Option ServiceExists) (P : Call → Type 0)
    (allows : (c : Call) → OrphanCall api known se c → P c) where
  -- SweepClusterResources, for a cluster that is not known.
  sweep_cluster_ensures :
      (cluster : Bytes)
      → DeadCluster known cluster
      → Ensures P (sweep_cluster_resources api cluster) Any
  sweep_cluster_ensures cluster dead =
      sweep_cluster_resources_ensures api P cluster (λ _. allows _ tt) (λ _. allows _ tt)
        (λ _. allows _ tt) (λ lb l q. allows _ (lb, refl, l, inl (cluster, dead.0, dead.1, q)))
        (λ lb l q fip on. allows _ (fip, refl, inr (lb, l, (cluster, dead.0, dead.1, q), on)))
        (λ sg l e. allows _ (sg, refl, l, cluster, dead.1, e))

  sweep_clusters_ensures :
      (seen cls : List Bytes)
      → All (DeadCluster known) cls
      → Ensures P (sweep_clusters api seen cls) Any
  unfolding sweep_clusters
  sweep_clusters_ensures seen [] h = return_ensures seen tt
  sweep_clusters_ensures seen (cl ∷ cls) h =
      if_ensures (contains_string seen cl) (λ _. sweep_clusters_ensures seen cls h.1)
        (λ _.
          bind_ensures (wrap_rule _ (sweep_cluster_ensures cl h.0))
            (λ _ _. sweep_clusters_ensures (cl ∷ seen) cls h.1))

  sweep_sg_ensures :
      (seen : List Bytes) (u : Unit {0}) (sg : SecGroup)
      → ListedSg api known se sg
      → Ensures P (sweep_sg api known seen u sg) Any
  unfolding sweep_sg cluster_sg_name
  sweep_sg_ensures seen u sg l =
      if_ensures (not (has_prefix sg.name cluster_sg_name_prefix)) (λ _. return_ensures tt tt)
        (λ pre.
          if_ensures (contains_string known (trim_prefix sg.name cluster_sg_name_prefix))
            (λ _. return_ensures tt tt)
            (λ dead.
              if_ensures (contains_string seen (trim_prefix sg.name cluster_sg_name_prefix))
                (λ _. return_ensures tt tt)
                (λ _. wrap_rule _ (
                  request-Any _ _ (
                    allows _
                      (sg, refl, l, _, dead, trim_prefix-split sg.name _ (not→true _ pre)))))))

  delete_orphan_lb_ensures :
      (lb : LoadBalancer)
      → ListedLb api known se lb × ServiceGone api known se lb.name
      → Ensures P (delete_orphan_lb api lb) Any
  unfolding delete_orphan_lb
  delete_orphan_lb_ensures lb q =
      bind_ensures (try_ensures (request-Any _ _ (allows _ (lb, refl, q.0, inr q.1))))
        (λ r _. unless_conflict_ensures P _ r)

module _ (api : Api) (known : List Bytes) (asks : ServiceExists) (P : Call → Type 0)
    (allows : (c : Call) → OrphanCall api known (some asks) c → P c)
    (quiet : IsQuiet (some asks)) where
  abbrev StrandedFip : FloatingIp → Type 0
  StrandedFip fip = FipOnPort api [] fip × ServiceGone api known (some asks) fip.description

  abbrev FipsTrue : List FloatingIp × Cache → Type 0
  FipsTrue (orphans, cache) = All StrandedFip orphans × CacheTrue api known (some asks) cache

  add_fip :
      (orphans : List FloatingIp) (fip : FloatingIp) (exists : Bool)
      → All StrandedFip orphans
      → (exists ≡ false → StrandedFip fip)
      → All StrandedFip (if exists then orphans else orphans ++ (fip ∷ []))
  add_fip orphans fip true h g = h
  add_fip orphans fip false h g = All-append StrandedFip orphans (fip ∷ []) h (g refl, tt)

  scan_fip_ensures :
      (s : List FloatingIp × Cache) (fip : FloatingIp)
      → FipsTrue s
      → FipOnPort api [] fip
      → Ensures P (scan_fip api known asks s fip) FipsTrue
  unfolding scan_fip
  scan_fip_ensures (orphans, cache) fip i l =
      if_ensures _ (λ _. return_ensures _ i)
        (λ _.
          option_ensures (parse_service_from_tag fip.description) (λ _. return_ensures _ i)
            (λ tag f.
              let (named, tc, tn, _, _) =
                parse_service_from_tag_sound fip.description tag.0 tag.1 tag.2 f in
              if_ensures (not (contains_string known tag.0)) (λ _. return_ensures _ i)
                (λ alive.
                  bind_ensures
                    (exists_cached_ensures api known asks P allows quiet cache tag.0 tag.1 tag.2 i.1
                      tc.no_slash tn.no_slash)
                    (λ r a. return_ensures _ (
                      add_fip orphans fip r.0 i.0
                          (λ e. (l, (tag.0, tag.1, tag.2, named, not→true _ alive, a.0 e))),
                      a.1,
                    )))))

  sweep_fips_ensures :
      (cache : Cache)
      → CacheTrue api known (some asks) cache
      → Ensures P (sweep_orphan_floating_ips api known asks cache) Any
  unfolding sweep_orphan_floating_ips delete_orphan_fip
  sweep_fips_ensures cache t =
      bind_ensures
        (listing_ensures {Q = AllPages (FipOnPort api [])} _ _ (allows _ tt)
          (λ log. AllPages-of_InPages (FipOnPort api []) _ (λ fip i. (log, i))))
        (λ pages h.
          bind_ensures
            (wrap_rule _ (
              fold_pages_ensures (scan_fip api known asks) FipsTrue (FipOnPort api [])
                scan_fip_ensures ([], cache) pages (tt, t) h))
            (λ s i. for_each_ensures s.0 i.0 (λ fip q.
              bind_ensures (try_ensures (request-Any _ _ (allows _ (fip, refl, inl q))))
                (λ r _. unless_conflict_ensures _ _ r))))

sweep_fips_if_ensures :
    (api : Api) (known : List Bytes) (se : Option ServiceExists) (P : Call → Type 0) (cache : Cache)
    → ((c : Call) → OrphanCall api known se c → P c)
    → IsQuiet se
    → CacheTrue api known se cache
    → Ensures P (sweep_fips_if api known se cache) Any
sweep_fips_if_ensures api known none P cache allows quiet t = return_ensures tt tt
sweep_fips_if_ensures api known (some asks) P cache allows quiet t =
    wrap_rule _ (sweep_fips_ensures api known asks P allows quiet cache t)

pub sweep_orphans_ensures :
    (api : Api) (known : List Bytes) (se : Option ServiceExists) (P : Call → Type 0)
    → ((c : Call) → OrphanCall api known se c → P c)
    → IsQuiet se
    → Ensures P (sweep_orphans api known se) Any
unfolding sweep_orphans lookup
sweep_orphans_ensures api known se P allows quiet =
    bind_ensures
      (listing_ensures {Q = AllPages (ListedLb api known se)} _ _ (allows _ tt)
        (λ log. AllPages-of_InPages (ListedLb api known se) _ (λ lb i. (log, i))))
      (λ pages h.
        bind_ensures
          (wrap_rule _ (
            fold_pages_ensures (scan_lb api known se) (ScanTrue api known se)
              (ListedLb api known se) (scan_lb_ensures api known se P allows quiet) _ pages
              start_true h))
          (λ s i.
            bind_ensures
              (for_each_ensures s.orphan_service_lbs i.lbs
                (delete_orphan_lb_ensures api known se P allows))
              (λ _ _.
                bind_ensures (sweep_fips_if_ensures api known se P s.cache allows quiet i.answers)
                  (λ _ _.
                    bind_ensures
                      (sweep_clusters_ensures api known se P allows [] s.orphan_clusters i.clusters)
                      (λ seen _.
                        bind_ensures
                          (listing_ensures {Q = AllPages (ListedSg api known se)} _ _ (allows _ tt)
                            (λ log.
                              AllPages-of_InPages (ListedSg api known se) _ (λ sg k. (log, [], k))))
                          (λ sg_pages k. wrap_rule _ (
                            fold_pages_ensures (sweep_sg api known seen) Any (ListedSg api known se)
                              (λ u sg _ l. sweep_sg_ensures api known se P allows seen u sg l) tt
                              sg_pages tt k)))))))
  where
    start_true :
        ScanTrue api known se (record { orphan_clusters = []; orphan_service_lbs = []; cache = [] })
    start_true = record { clusters = tt; lbs = tt; answers = λ c n s _ _ e. cc e }

-- Every call that SweepOrphans makes is a listing, a lookup of a Service by the callback, or a
-- deletion with a reason, for any answers of the cloud. A load balancer that it deletes was listed,
-- and its name is that of a cluster that is not known, where the cluster's name is what stands before
-- the first slash, or that of a Service of a known cluster
-- that the callback has answered not to exist. A floating address that it deletes was listed with
-- the tag of such a Service, or as bound to the port of a load balancer of a cluster that is not
-- known. A security group that it deletes is that of a cluster that is not known. The condition is
-- that the callback, where there is one, makes lookups of Services only.
pub sweep_orphans_deletes :
    (api : Api) (known : List Bytes) (se : Option ServiceExists)
    → IsQuiet se
    → All (OrphanCall api known se) (sweep_orphans api known se []).1
sweep_orphans_deletes api known se quiet =
    calls_meet (OrphanCall api known se) Any _
      ((sweep_orphans_ensures api known se (OrphanCall api known se) (λ c h. h) quiet).run [] tt)
