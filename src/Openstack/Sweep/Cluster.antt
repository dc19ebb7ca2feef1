-- ===== src/Openstack/Sweep/Cluster.antt =====
-- The calls of SweepClusterResources, by a predicate that they have to meet.
use kubernetes_switchcloud.Base.{
  true, [], ◌++◌, none, some, Bytes, lit, ◌≡◌, bytes_eq, bytes_eq_iff, has_prefix,
}
use kubernetes_switchcloud.Cloud.Types.{
  Api, Call, Log, LoadBalancer, FloatingIp, SecGroup, list_lbs, delete_lb, list_fips, delete_fip,
  list_sgs, delete_sg,
}
use kubernetes_switchcloud.Cloud.Hoare.{
  Ensures, Any, return_ensures, lift_ensures, request-Any, listing_ensures, bind_ensures, wrap_rule,
  try_ensures, for_each_ensures,
}
use kubernetes_switchcloud.Cloud.Pages.{
  AllPages, InPages, AllPages-of_InPages, SomePasses, find_in_pages-OkMeets, collect-OkMeets,
}
use kubernetes_switchcloud.Openstack.Names.{managed_name_prefix, cluster_sg_name}
use kubernetes_switchcloud.Openstack.FloatingIp.Calls.{FipOnPort, delete_floating_ip_ensures}
use kubernetes_switchcloud.Openstack.SecurityGroup.{find_sg_by_name}
use kubernetes_switchcloud.Openstack.Sweep.{sweep_lb, sweep_cluster_resources}
use kubernetes_switchcloud.Openstack.Sweep.Safety.Rules.{unless_conflict_ensures}

abbrev pub LbListed : Api → LoadBalancer → Type 0
LbListed api lb = (log : Log) × InPages lb (api.list_lbs log [])

abbrev pub SgListed : Api → SecGroup → Type 0
SgListed api sg = (log : Log) × (filter : Bytes) × InPages sg (api.list_sgs log filter)

-- The name has the prefix of the cluster's load balancers.
abbrev pub IsOfCluster : Bytes → Bytes → Type 0
IsOfCluster cluster name = has_prefix name (managed_name_prefix ++ (cluster ++ lit "/")) ≡ true

module _ (api : Api) (P : Call → Type 0) (cluster : Bytes)
    (lists : (name : Bytes) → P (list_lbs name)) (lists_fips : (port : Bytes) → P (list_fips port))
    (lists_sgs : (name : Bytes) → P (list_sgs name))
    (deletes : (lb : LoadBalancer)
      → LbListed api lb
      → IsOfCluster cluster lb.name
      → P (delete_lb lb.id))
    (deletes_fip : (lb : LoadBalancer)
      → LbListed api lb
      → IsOfCluster cluster lb.name
      → (fip : FloatingIp) → FipOnPort api lb.vip_port_id fip
      → P (delete_fip fip.id))
    (deletes_sg : (sg : SecGroup)
      → SgListed api sg
      → sg.name ≡ cluster_sg_name cluster
      → P (delete_sg sg.id)) where
  sweep_lb_ensures :
      (lb : LoadBalancer)
      → LbListed api lb
      → IsOfCluster cluster lb.name
      → Ensures P (sweep_lb api lb) Any
  unfolding sweep_lb
  sweep_lb_ensures lb l q =
      bind_ensures
        (wrap_rule _
          (delete_floating_ip_ensures api P lb.vip_port_id (lists_fips _) (deletes_fip lb l q)))
        (λ _ _. wrap_rule _ (request-Any _ _ (deletes lb l q)))

  find_sg_ensures :
      (name : Bytes)
      → Ensures P
          (find_sg_by_name api name)
          (SomePasses (SgListed api) (λ sg. bytes_eq sg.name name))
  unfolding find_sg_by_name
  find_sg_ensures name =
      bind_ensures
        (listing_ensures {Q = AllPages (SgListed api)} _ _ (lists_sgs name)
          (λ log. AllPages-of_InPages (SgListed api) _ (λ sg i. (log, name, i))))
        (λ pages h. lift_ensures _ (find_in_pages-OkMeets (SgListed api) _ pages h))

  pub sweep_cluster_resources_ensures : Ensures P (sweep_cluster_resources api cluster) Any
  unfolding sweep_cluster_resources
  sweep_cluster_resources_ensures =
      bind_ensures
        (listing_ensures {Q = AllPages (LbListed api)} _ _ (lists [])
          (λ log. AllPages-of_InPages (LbListed api) _ (λ lb i. (log, i))))
        (λ pages h.
          bind_ensures (wrap_rule _ (lift_ensures _ (collect-OkMeets (LbListed api) _ pages h)))
            (λ lbs k.
              bind_ensures (for_each_ensures lbs k (λ lb q. sweep_lb_ensures lb q.0 q.1)) (λ _ _.
                bind_ensures (wrap_rule _ (find_sg_ensures (cluster_sg_name cluster))) (elim [
                  | none ↦ λ q. return_ensures tt tt
                  | some sg ↦ λ q.
                      bind_ensures
                        (try_ensures
                          (request-Any _ _ (deletes_sg sg q.0 ((bytes_eq_iff sg.name _).0 q.1))))
                        (λ r _. unless_conflict_ensures P _ r)
                ]))))
