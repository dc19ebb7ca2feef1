-- ===== src/Openstack/Names.antt =====
-- The names by which resources are found again: loadbalancer.go, securitygroup.go and the parsers
-- of sweep.go.
pub mod RoundTrip
use kubernetes_switchcloud.Base.{
  Bool, true, false, not, ◌&&◌, ◌||◌, List, [], ◌∷◌, ◌++◌, Option, none, some, Bytes, lit, is_empty,
  has_prefix, trim_prefix, contains, contains_byte, cut_byte, if◌then◌else◌, String,
}
use kubernetes_switchcloud.Cloud.Types.{LoadBalancer, Error}

unfoldable pub managed_name_prefix : Bytes
managed_name_prefix = lit "cozystack:"

unfoldable pub cluster_sg_name_prefix : Bytes
cluster_sg_name_prefix = lit "cozystack-lb-"

unfoldable pub ksc_server_name_prefix : Bytes
ksc_server_name_prefix = lit "kubernetes-switchcloud-"

-- ServiceLBName
unfoldable pub service_lb_name : Bytes → Bytes → Bytes → Bytes
service_lb_name tenant namespace name =
    managed_name_prefix ++ (tenant ++ (b'/' ∷ (namespace ++ (b'/' ∷ name))))

-- IsManaged
unfoldable pub is_managed : LoadBalancer → Bool
is_managed lb = has_prefix lb.name managed_name_prefix

-- ClusterSGName
unfoldable pub cluster_sg_name : Bytes → Bytes
cluster_sg_name cluster = cluster_sg_name_prefix ++ cluster

-- parseClusterFromLBName: `slash <= 0` is that there is none, or that nothing stands before it.
unfoldable pub parse_cluster_from_lb_name : Bytes → Option Bytes
parse_cluster_from_lb_name name =
    if not (has_prefix name managed_name_prefix)
    then none
    else elim (cut_byte b'/' (trim_prefix name managed_name_prefix)) [
      | none ↦ none
      | some (cluster, rest) ↦ if is_empty cluster then none else some cluster
    ]

-- strings.SplitN(s, "/", 3), where it has three parts.
unfoldable pub split_three : Bytes → Option (Bytes × Bytes × Bytes)
split_three s = elim (cut_byte b'/' s) [
  | none ↦ none
  | some (first, rest) ↦ elim (cut_byte b'/' rest) [
    | none ↦ none
    | some (second, third) ↦ some (first, second, third)
  ]
]

-- parseServiceFromTag
unfoldable pub parse_service_from_tag : Bytes → Option (Bytes × Bytes × Bytes)
unfolding split_three
parse_service_from_tag tag =
    if not (has_prefix tag managed_name_prefix)
    then none
    else elim (split_three (trim_prefix tag managed_name_prefix)) [
      | none ↦ none
      | some (cluster, namespace, name) ↦
          if is_empty cluster || is_empty namespace || is_empty name
          then none
          else if contains_byte b':' name
          then none
          else some (cluster, namespace, name)
    ]

-- isConflictError, on an error that is not nil
unfoldable pub is_conflict_error : Error → Bool
is_conflict_error e =
    contains e.message (lit "got 409 instead")
    || contains e.message (lit "Bad response code: 409")
    || contains e.message (lit "SecurityGroupInUse")

-- isClaimedByKnown: some name of the set, the empty one aside, anchors the server's name.
unfoldable pub is_claimed_by_known : Bytes → List Bytes → Bool
is_claimed_by_known server_name [] = false
is_claimed_by_known server_name (cluster ∷ known) =
    if not (is_empty cluster)
      && has_prefix server_name (ksc_server_name_prefix ++ (cluster ++ lit "-"))
    then true
    else is_claimed_by_known server_name known
