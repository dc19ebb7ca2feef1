-- ===== src/Openstack/Sweep.antt =====
-- sweep.go: the deletion of what clusters and Services that are gone have left in the project.
pub mod Allowed
pub mod Safety
pub mod Cluster
pub mod Orphans
pub mod Servers
use kubernetes_switchcloud.Base.{
  Bool, true, false, not, ◌&&◌, ◌||◌, List, [], ◌∷◌, ◌++◌, Option, none, some, Bytes, lit, is_empty,
  bytes_eq, contains_string, has_prefix, trim_prefix, bytes_key, lookup, insert, if◌then◌else◌,
  String,
}
use kubernetes_switchcloud.Cloud.Types.{
  Api, Call, LoadBalancer, FloatingIp, SecGroup, Server, Result, ok, err, Error, Pages, last, page,
  broken, list_lbs, delete_lb, list_fips, delete_fip, list_sgs, delete_sg, list_servers,
  delete_server,
}
use kubernetes_switchcloud.Cloud.Action.{
  M, return, fail, ◌>>=◌, ◌>>◌, request, listing, lift, wrap, try, for_each,
}
use kubernetes_switchcloud.Cloud.Pages.{find_in_pages, collect}
use kubernetes_switchcloud.Openstack.Names.{
  managed_name_prefix, cluster_sg_name_prefix, ksc_server_name_prefix, cluster_sg_name,
  parse_cluster_from_lb_name, parse_service_from_tag, is_conflict_error, is_claimed_by_known,
}
use kubernetes_switchcloud.Openstack.FloatingIp.{delete_floating_ip}
use kubernetes_switchcloud.Openstack.SecurityGroup.{find_sg_by_name}

-- ServiceExistsFunc: of a cluster, a namespace and a name.
abbrev pub ServiceExists : Type 0
ServiceExists = Bytes → Bytes → Bytes → M Bool

-- serviceExistsSeen
abbrev pub Cache : Type 0
Cache = List (Bytes × Bool)

unfoldable pub cache_key : Bytes → Bytes → Bytes → Bytes
cache_key cluster namespace name = cluster ++ (b'/' ∷ (namespace ++ (b'/' ∷ name)))

-- What the first pass of SweepOrphans gathers.
pub record Scan : Type 0 where
  pub orphan_clusters : List Bytes
  pub orphan_service_lbs : List LoadBalancer
  pub cache : Cache

-- Where a call's conflict is no error.
unfoldable pub unless_conflict : Bytes → Result (Unit {0}) → M (Unit {0})
unless_conflict text (ok _) = return tt
unless_conflict text (err e) = if is_conflict_error e then return tt else wrap text (fail e)

-- The rounds of a handler over the items of a page, and over the pages.
unfoldable pub fold_items : {S A : Type 0} → (S → A → M S) → S → List A → M S
fold_items f s [] = return s
fold_items f s (x ∷ xs) = do s' ← f s x; fold_items f s' xs

unfoldable pub fold_pages : {S A : Type 0} → (S → A → M S) → S → Pages A → M S
unfolding fold_items
fold_pages f s last = return s
fold_pages f s (broken e) = fail e
fold_pages f s (page xs rest) = do s' ← fold_items f s xs; fold_pages f s' rest

module _ (api : Api) where
  -- One round of the deletions of SweepClusterResources.
  unfoldable pub sweep_lb : LoadBalancer → M (Unit {0})
  sweep_lb lb = do
    wrap (lit "deleting FIP for orphan LB " ++ lb.id) (delete_floating_ip api lb.vip_port_id)
    wrap (lit "cascade-deleting orphan LB " ++ lb.id)
        (request (delete_lb lb.id) (λ log. api.delete_lb log lb.id))

  -- SweepClusterResources
  unfoldable pub sweep_cluster_resources : Bytes → M (Unit {0})
  unfolding sweep_lb unless_conflict
  sweep_cluster_resources cluster = do
    let lb_prefix = managed_name_prefix ++ (cluster ++ lit "/")
    pages ← listing (list_lbs []) (λ log. api.list_lbs log [])
    to_delete ←
        wrap (lit "listing LBs for cluster sweep")
          (lift (collect (λ lb. has_prefix lb.name lb_prefix) pages))
    for_each sweep_lb to_delete
    found ←
        wrap (lit "looking up cluster SG for sweep") (find_sg_by_name api (cluster_sg_name cluster))
    elim found [
      | none ↦ return tt
      | some sg ↦ do
        r ← try (request (delete_sg sg.id) (λ log. api.delete_sg log sg.id))
        unless_conflict (lit "deleting cluster SG " ++ sg.id) r
    ]

  -- Does the Service that a tag names exist? The answer is kept, and an error counts as a yes.
  unfoldable pub exists_cached : ServiceExists → Cache → Bytes → Bytes → Bytes → M (Bool × Cache)
  exists_cached service_exists cache cluster namespace name =
      let key = cache_key cluster namespace name in
      elim (lookup key cache) [
        | some cached ↦ return (cached, cache)
        | none ↦ do
          r ← try (service_exists cluster namespace name)
          elim r [
            | err e ↦ return (true, insert key true cache)
            | ok exists ↦ return (exists, insert key exists cache)
          ]
      ]

  -- The round of the handler of SweepOrphans for one load balancer.
  unfoldable pub scan_lb : List Bytes → Option ServiceExists → Scan → LoadBalancer → M Scan
  unfolding exists_cached
  scan_lb known service_exists s lb =
      if not (has_prefix lb.name managed_name_prefix)
      then return s
      else elim (parse_cluster_from_lb_name lb.name) [
        | none ↦ return s
        | some cluster ↦
            if not (contains_string known cluster)
            then return (record s { orphan_clusters = s.orphan_clusters ++ (cluster ∷ []) })
            else elim service_exists [
              | none ↦ return s
              | some asks ↦ elim (parse_service_from_tag lb.name) [
                | none ↦ return s
                | some (lb_cluster, ns, name) ↦ do
                  (exists, cache) ← exists_cached asks s.cache lb_cluster ns name
                  return (record s {
                    orphan_service_lbs =
                        if exists then s.orphan_service_lbs else s.orphan_service_lbs ++ (lb ∷ []);
                    cache = cache;
                  })
              ]
            ]
      ]

  -- The deletion of a load balancer whose Service is gone.
  unfoldable pub delete_orphan_lb : LoadBalancer → M (Unit {0})
  unfolding unless_conflict
  delete_orphan_lb lb = do
    r ← try (request (delete_lb lb.id) (λ log. api.delete_lb log lb.id))
    unless_conflict (lit "deleting per-Service orphan LB " ++ lb.name) r

  -- The round of the handler of sweepOrphanFloatingIPs.
  unfoldable pub scan_fip :
      List Bytes
      → ServiceExists
      → List FloatingIp × Cache
      → FloatingIp
      → M (List FloatingIp × Cache)
  unfolding exists_cached
  scan_fip known asks (orphans, cache) fip =
      if not (has_prefix fip.description managed_name_prefix)
      then return (orphans, cache)
      else elim (parse_service_from_tag fip.description) [
        | none ↦ return (orphans, cache)
        | some (cluster, ns, name) ↦
            if not (contains_string known cluster) then return (orphans, cache) else do
              (exists, cache') ← exists_cached asks cache cluster ns name
              return (if exists then orphans else orphans ++ (fip ∷ []), cache')
      ]

  unfoldable pub delete_orphan_fip : FloatingIp → M (Unit {0})
  unfolding unless_conflict
  delete_orphan_fip fip = do
    r ← try (request (delete_fip fip.id) (λ log. api.delete_fip log fip.id))
    unless_conflict (lit "deleting per-Service orphan FIP " ++ fip.floating_ip) r

  -- sweepOrphanFloatingIPs
  unfoldable pub sweep_orphan_floating_ips : List Bytes → ServiceExists → Cache → M (Unit {0})
  unfolding scan_fip delete_orphan_fip fold_pages
  sweep_orphan_floating_ips known asks cache = do
    pages ← listing (list_fips []) (λ log. api.list_fips log [])
    (orphans, cache') ←
        wrap (lit "listing FIPs for per-Service orphan sweep")
          (fold_pages (scan_fip known asks) ([], cache) pages)
    for_each delete_orphan_fip orphans

  -- The loop over the orphaned clusters, each swept once. What it returns is the set `seen`.
  unfoldable pub sweep_clusters : List Bytes → List Bytes → M (List Bytes)
  sweep_clusters seen [] = return seen
  sweep_clusters seen (cl ∷ cls) = if contains_string seen cl then sweep_clusters seen cls else do
    wrap (lit "sweeping resources for orphan cluster") (sweep_cluster_resources cl)
    sweep_clusters (cl ∷ seen) cls

  -- The round of the last handler of SweepOrphans: a security group whose cluster is gone.
  unfoldable pub sweep_sg : List Bytes → List Bytes → Unit {0} → SecGroup → M (Unit {0})
  sweep_sg known seen _ sg =
      if not (has_prefix sg.name cluster_sg_name_prefix)
      then return tt
      else if contains_string known (trim_prefix sg.name cluster_sg_name_prefix)
      then return tt
      else if contains_string seen (trim_prefix sg.name cluster_sg_name_prefix)
      then return tt
      else wrap (lit "deleting orphan SG " ++ sg.id)
          (request (delete_sg sg.id) (λ log. api.delete_sg log sg.id))

  abbrev pub sweep_fips_if : List Bytes → Option ServiceExists → Cache → M (Unit {0})
  sweep_fips_if known none cache = return tt
  sweep_fips_if known (some asks) cache =
      wrap (lit "sweeping per-Service orphan FIPs") (sweep_orphan_floating_ips known asks cache)

  -- SweepOrphans
  unfoldable pub sweep_orphans : List Bytes → Option ServiceExists → M (Unit {0})
  unfolding scan_lb delete_orphan_lb sweep_orphan_floating_ips sweep_clusters sweep_sg fold_pages
  sweep_orphans known service_exists = do
    pages ← listing (list_lbs []) (λ log. api.list_lbs log [])
    let start : Scan = record { orphan_clusters = []; orphan_service_lbs = []; cache = [] }
    s ←
        wrap (lit "listing LBs for orphan sweep")
          (fold_pages (scan_lb known service_exists) start pages)
    for_each delete_orphan_lb s.orphan_service_lbs
    sweep_fips_if known service_exists s.cache
    seen ← sweep_clusters [] s.orphan_clusters
    sg_pages ← listing (list_sgs []) (λ log. api.list_sgs log [])
    wrap (lit "listing SGs for orphan sweep") (fold_pages (sweep_sg known seen) tt sg_pages)

  unfoldable pub delete_orphan_server : Server → M (Unit {0})
  delete_orphan_server s =
      wrap (lit "deleting orphan Nova server " ++ s.name)
        (request (delete_server s.id) (λ log. api.delete_server log s.id))

  -- SweepOrphanNovaServers; the flag is `c.Compute != nil`.
  unfoldable pub sweep_orphan_nova_servers : Bool → List Bytes → M (Unit {0})
  unfolding delete_orphan_server
  sweep_orphan_nova_servers has_compute known = if not has_compute then return tt else do
    pages ← listing list_servers (λ log. api.list_servers log)
    orphans ← wrap (lit "listing Nova servers for orphan sweep") (
        lift (
          collect
            (λ s.
              has_prefix s.name ksc_server_name_prefix && not (is_claimed_by_known s.name known))
            pages))
    for_each delete_orphan_server orphans
