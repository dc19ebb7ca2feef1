-- ===== src/ProviderId.antt =====
-- provider-id-setter/main.go: the provider ID and the label that a node is given.
pub mod Settled
use kubernetes_switchcloud.Base.{
  Bool, true, false, not, ◌&&◌, List, [], ◌∷◌, ◌++◌, Option, none, some, Bytes, lit, is_empty,
  bytes_eq, bytes_key, lookup, if◌then◌else◌, String,
}
use kubernetes_switchcloud.Cloud.Types.{Error, Result, ok, err}
use kubernetes_switchcloud.Cloud.Action.{new_error, wrapped}

-- novaMetadata
pub record NovaMetadata : Type 0 where
  pub uuid : Bytes
  pub meta : List (Bytes × Bytes)

-- The fields of the Node that are read.
pub record Node : Type 0 where
  pub labels : List (Bytes × Bytes)
  pub provider_id : Bytes

-- nodePatch, nodePatchMeta and nodePatchSpec
pub record NodePatch : Type 0 where
  pub labels : List (Bytes × Bytes)
  pub provider_id : Bytes

-- The answer of the metadata service: its status and its body.
pub record Response : Type 0 where
  pub is_ok : Bool
  pub body : Result Bytes

-- The environment, and what the libraries, the metadata service and the apiserver answer.
pub record Host : Type 0 where
  pub node_name : Bytes
  pub http_get : Result Response
  pub unmarshal : Bytes → Result NovaMetadata
  pub in_cluster_config : Result Bytes
  pub api_server_override : Bytes
  pub new_client : Bytes → Result (Unit {0})
  pub get_node : Bytes → Result Node
  pub patch_node : Bytes → NodePatch → Result (Unit {0})

-- How main ends: with nothing to do or set, or an error and exit code 1.
pub data Exit : Type 0 where
  skipped : Exit
  already_set : Exit
  patched : Exit
  exit_1 : Exit

unfoldable pub instance_type_label : Bytes
instance_type_label = lit "node.kubernetes.io/instance-type"

-- m[k] of a map of strings
abbrev pub or_empty : Option Bytes → Bytes
or_empty none = []
or_empty (some s) = s

-- fetchIMDS
unfoldable pub fetch_imds : Host → Result NovaMetadata
fetch_imds host = elim host.http_get [
  | err e ↦ err (wrapped (lit "HTTP GET") e)
  | ok resp ↦ if not resp.is_ok then err (new_error (lit "status")) else elim resp.body [
    | err e ↦ err (wrapped (lit "reading body") e)
    | ok body ↦ elim (host.unmarshal body) [
      | err e ↦ err (wrapped (lit "parsing JSON") e)
      | ok meta ↦ ok meta
    ]
  ]
]

unfoldable pub provider_id_of : NovaMetadata → Bytes
provider_id_of meta = lit "openstack:///" ++ meta.uuid

unfoldable pub instance_type_of : NovaMetadata → Bytes
instance_type_of meta = or_empty (lookup (lit "instance-type") meta.meta)

-- alreadyLabelled
unfoldable pub is_labelled : Node → Bool
is_labelled node = not (is_empty (or_empty (lookup instance_type_label node.labels)))

-- The patch, if there is something to set.
unfoldable pub patch_for : NovaMetadata → Node → Option NodePatch
unfolding provider_id_of instance_type_of is_labelled
patch_for meta node =
    if bytes_eq node.provider_id (provider_id_of meta) && is_labelled node
    then none
    else some (record {
      labels =
          if not (is_empty (instance_type_of meta)) && not (is_labelled node)
          then (instance_type_label, instance_type_of meta) ∷ []
          else [];
      provider_id = provider_id_of meta;
    })

-- main, from the Get of the node on: how it ends, and the patch that was sent, if one was.
unfoldable pub set_node : Host → NovaMetadata → Exit × Option NodePatch
unfolding patch_for
set_node host meta = elim (host.get_node host.node_name) [
  | err e ↦ (exit_1, none)
  | ok node ↦ elim (patch_for meta node) [
    | none ↦ (already_set, none)
    | some patch ↦ elim (host.patch_node host.node_name patch) [
      | err e ↦ (exit_1, some patch)
      | ok _ ↦ (patched, some patch)
    ]
  ]
]

-- main. A configuration of the API server stands for its host: the one found in the cluster, or the
-- override in its place.
unfoldable pub run : Host → Exit × Option NodePatch
unfolding fetch_imds set_node
run host = if is_empty host.node_name then (exit_1, none) else elim (fetch_imds host) [
  | err e ↦ (skipped, none)
  | ok meta ↦ if is_empty meta.uuid then (skipped, none) else elim host.in_cluster_config [
    | err e ↦ (exit_1, none)
    | ok cfg ↦
        let url =
          if not (is_empty host.api_server_override) then host.api_server_override else cfg in
        elim (host.new_client url) [ err e ↦ (exit_1, none) | ok _ ↦ set_node host meta ]
  ]
]
