-- ===== src/Openstack/Sweep/Allowed.antt =====
-- The calls that SweepOrphans may make, each with the reason for it.
use kubernetes_switchcloud.Base.{
  true, false, ◌≡◌, ◌⊎◌, List, [], ◌++◌, Option, none, some, Bytes, lit, contains_string,
  has_prefix, bytes_key,
}
use kubernetes_switchcloud.Cloud.Types.{
  Api, Call, Log, LoadBalancer, FloatingIp, SecGroup, ok, list_lbs, delete_lb, list_fips,
  delete_fip, list_sgs, delete_sg, get_service,
}
use kubernetes_switchcloud.Cloud.Hoare.{Ensures, Any}
use kubernetes_switchcloud.Cloud.Pages.{InPages}
use kubernetes_switchcloud.Openstack.Names.{managed_name_prefix, cluster_sg_name, service_lb_name}
use kubernetes_switchcloud.Openstack.Names.RoundTrip.{IsToken}
use kubernetes_switchcloud.Openstack.FloatingIp.Calls.{FipOnPort}
use kubernetes_switchcloud.Openstack.Sweep.{ServiceExists}

-- The callback has answered that the Service does not exist.
abbrev pub Gone : Option ServiceExists → Bytes → Bytes → Bytes → Type 0
Gone none c n s = ⊥
Gone (some asks) c n s = (log log' : Log) × (asks c n s log ≡ (ok false, log'))

-- The callback only reads: all the calls that it makes are lookups of Services.
abbrev pub IsQuiet : Option ServiceExists → Type 1
IsQuiet none = Unit
IsQuiet (some asks) =
    (P : Call → Type 0)
    → ((t n s : Bytes) → P (get_service t n s))
    → (c n s : Bytes) → Ensures P (asks c n s) Any

module _ (api : Api) (known : List Bytes) (se : Option ServiceExists) where
  abbrev pub ListedLb : LoadBalancer → Type 0
  ListedLb lb = (log : Log) × InPages lb (api.list_lbs log [])

  abbrev pub ListedSg : SecGroup → Type 0
  ListedSg sg = (log : Log) × (filter : Bytes) × InPages sg (api.list_sgs log filter)

  -- The name is that of a load balancer of a cluster, what stands before the first slash, that is
  -- not known.
  abbrev pub ClusterGone : Bytes → Type 0
  ClusterGone name =
      (cluster : Bytes) × IsToken cluster
      × (contains_string known cluster ≡ false)
      × (has_prefix name (managed_name_prefix ++ (cluster ++ lit "/")) ≡ true)

  -- The tag is that of a Service that has been seen not to exist, in a cluster that is known.
  abbrev pub ServiceGone : Bytes → Type 0
  ServiceGone tag =
      (c n s : Bytes) × (tag ≡ service_lb_name c n s)
      × (contains_string known c ≡ true)
      × Gone se c n s

  -- The calls that the sweep may make.
  abbrev pub OrphanCall : Call → Type 0
  OrphanCall (list_lbs _) = Unit
  OrphanCall (list_fips _) = Unit
  OrphanCall (list_sgs _) = Unit
  OrphanCall (get_service _ _ _) = Unit
  OrphanCall (delete_lb id) =
      (lb : LoadBalancer) × (lb.id ≡ id) × ListedLb lb × (ClusterGone lb.name ⊎ ServiceGone lb.name)
  OrphanCall (delete_fip id) =
      (fip : FloatingIp) × (fip.id ≡ id)
      × ((FipOnPort api [] fip × ServiceGone fip.description)
          ⊎ ((lb : LoadBalancer) × ListedLb lb
              × ClusterGone lb.name
              × FipOnPort api lb.vip_port_id fip))
  OrphanCall (delete_sg id) =
      (sg : SecGroup) × (sg.id ≡ id)
      × ListedSg sg
      × (cluster : Bytes) × (contains_string known cluster ≡ false)
      × (sg.name ≡ cluster_sg_name cluster)
  OrphanCall _ = ⊥
