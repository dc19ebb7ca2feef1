-- ===== src/Tests.antt =====
-- Runs of the code at concrete inputs, and the theorems at them.
mod World
mod Fleet
mod Edge
mod Platform
mod Sni
use kubernetes_switchcloud.Base.{
  In, any_of, insert, not, ◌&&◌, bytes_eq, if◌then◌else◌, bytes_key, ℕ, Bool, true, false, List, [],
  ◌∷◌, ◌++◌, Option, none, some, Bytes, lit, ◌≡◌, refl, All, here, is_empty, lookup, contains_byte,
  has_prefix, has_suffix, trim_suffix, cut_suffix, cut_byte, trim_prefix, length, ◌≤◌, suc, String,
}
use kubernetes_switchcloud.Cloud.Types.{Member, Api, Call, Result, ok, err, Log, get_service}
use kubernetes_switchcloud.Cloud.Action.{M, request}
use kubernetes_switchcloud.Cloud.Hoare.{request-Any, Any, Ensures}
use kubernetes_switchcloud.Openstack.Names.{
  service_lb_name, parse_cluster_from_lb_name, parse_service_from_tag, managed_name_prefix,
}
use kubernetes_switchcloud.Openstack.Names.RoundTrip.{
  IsToken, parse_cluster_from_lb_name-service_lb_name, parse_service_from_tag-service_lb_name,
  parse_service_from_tag_sound,
}
use kubernetes_switchcloud.Openstack.LoadBalancer.{sync_listeners_and_members}
use kubernetes_switchcloud.Openstack.LoadBalancer.{address_set, differs, drift, members_by_ip}
use kubernetes_switchcloud.Openstack.LoadBalancer.Members.{drift-false}
use kubernetes_switchcloud.Openstack.LoadBalancer.OneChange.{
  changes, sync_listeners_and_members-changes,
}
use kubernetes_switchcloud.Openstack.PortAttach.{ensure_sg_attached_to_workers}
use kubernetes_switchcloud.Openstack.PortAttach.Attached.{AttachCall, ensure_sg_attached_only_adds}
use kubernetes_switchcloud.Openstack.SecurityGroup.{
  rule_key, desired_rule, build_desired_rules, ensure_node_port_rules,
}
use kubernetes_switchcloud.Openstack.SecurityGroup.Rules.{
  Wanted, port_key, build_desired_rules-Wanted, lookup-build_desired_rules,
}
use kubernetes_switchcloud.Openstack.SecurityGroup.Owned.{
  NodePortCall, ensure_node_port_rules_calls,
}
use kubernetes_switchcloud.Openstack.Sweep.{ServiceExists, sweep_orphans, sweep_orphan_nova_servers}
use kubernetes_switchcloud.Openstack.Sweep.Allowed.{OrphanCall, IsQuiet}
use kubernetes_switchcloud.Openstack.Sweep.Orphans.{sweep_orphans_deletes}
use kubernetes_switchcloud.Openstack.Sweep.Servers.{ServerCall, sweep_orphan_nova_servers_calls}
use kubernetes_switchcloud.Controller.ServiceReconciler.{reconcile}
use kubernetes_switchcloud.Controller.ServiceReconciler.PassCall.{PassCall}
use kubernetes_switchcloud.Controller.ServiceReconciler.Finalizer.{reconcile_calls}
use kubernetes_switchcloud.Controller.ClusterReconciler.{cluster_finalizer_name, reconcile_release}
use kubernetes_switchcloud.Controller.ClusterReconciler.Release.{
  ReleaseCall, reconcile_release_calls,
}
use kubernetes_switchcloud.Multicluster.{
  kubeconfig_name_prefix, kubeconfig_suffix, tenant_from_secret_name, is_kubeconfig_secret_name,
}
use kubernetes_switchcloud.Multicluster.RoundTrip.{tenant_from_secret_name-round_trip}
use kubernetes_switchcloud.Sniproxy.Peek.{
  Conn, PeekConn, extract_sni, read_sni, peek_read, read_full, slice, byte_at, u16_at, scan_names,
  parse_sni_extension, scan_extensions, read_extensions, skip_compression, skip_cipher_suites,
  parse_hello_body, parse_handshake,
}
use kubernetes_switchcloud.Sniproxy.Peek.{ok as parsed}
use kubernetes_switchcloud.Sniproxy.Peek.Bounds.{crashes, extract_sni_safe}
use kubernetes_switchcloud.Sniproxy.Peek.Replay.{
  stream, peek_stream, peek_read-stream, read_sni-stream,
}
use kubernetes_switchcloud.Sniproxy.Peek.Hello.{ClientHello, client_hello, extract_sni-client_hello}
use kubernetes_switchcloud.Sniproxy.Router.{
  Backend, Router, address, backend, delete, or_none, owner_prefix, service_key, upsert,
}
use kubernetes_switchcloud.Sniproxy.Router.Table.{backend-delete, backend-upsert, wants}
use kubernetes_switchcloud.Sniproxy.Router.Table.Entries.{belongs, holds}
use World.{hello, demo, shop, web_name, http_port, web, web_lb, cloud, release}

abbrev known : List Bytes
known = demo ∷ []

abbrev no_service : ServiceExists
no_service c n s = request (get_service c n s) (λ log. ok false)

no_service-IsQuiet : IsQuiet (some no_service)
no_service-IsQuiet P gets c n s = request-Any (get_service c n s) (λ log. ok false) (gets c n s)

sweep_orphans_deletes_example :
    All
      (OrphanCall cloud known (some no_service))
      (sweep_orphans cloud known (some no_service) []).1
sweep_orphans_deletes_example =
    sweep_orphans_deletes cloud known (some no_service) no_service-IsQuiet

reconcile_calls_example :
    All (PassCall cloud demo shop web_name) (reconcile cloud demo shop web_name []).1
reconcile_calls_example = reconcile_calls cloud demo shop web_name

-- The cloud, with the cluster being deleted.
abbrev ending_cloud : Api
ending_cloud = record cloud {
  get_release =
      λ log n s. ok (record release { deleting = true; finalizers = cluster_finalizer_name ∷ [] });
}

reconcile_release_calls_example :
    All
      (ReleaseCall ending_cloud (lit "tenant-root") (lit "kubernetes-switchcloud-demo"))
      (reconcile_release ending_cloud (lit "tenant-root") (lit "kubernetes-switchcloud-demo") []).1
reconcile_release_calls_example =
    reconcile_release_calls ending_cloud (lit "tenant-root") (lit "kubernetes-switchcloud-demo")

ensure_node_port_rules_calls_example :
    All
      (NodePortCall cloud (lit "sg-1") demo web (lit "0.0.0.0/0" ∷ []))
      (ensure_node_port_rules cloud (lit "sg-1") demo web (lit "0.0.0.0/0" ∷ []) []).1
ensure_node_port_rules_calls_example =
    ensure_node_port_rules_calls cloud (lit "sg-1") demo web (lit "0.0.0.0/0" ∷ [])

build_desired_rules-Wanted_example :
    All
      (Wanted demo web (lit "0.0.0.0/0" ∷ []))
      (build_desired_rules demo web (lit "0.0.0.0/0" ∷ []))
build_desired_rules-Wanted_example = build_desired_rules-Wanted demo web (lit "0.0.0.0/0" ∷ [])

lookup-build_desired_rules_example :
    lookup
      (port_key http_port (lit "0.0.0.0/0"))
      (build_desired_rules demo web (lit "0.0.0.0/0" ∷ []))
    ≡ some (desired_rule demo web (port_key http_port (lit "0.0.0.0/0")))
lookup-build_desired_rules_example =
    lookup-build_desired_rules demo web (lit "0.0.0.0/0" ∷ []) http_port (lit "0.0.0.0/0")
      (here refl) (here refl) refl

sync_listeners_and_members-changes_example :
    (changes
        (sync_listeners_and_members cloud web_lb web (lit "10.0.0.5" ∷ []) (lit "subnet-1") []).1
      ≤ 1)
    × ((sync_listeners_and_members cloud web_lb web (lit "10.0.0.5" ∷ []) (lit "subnet-1") []).0
          ≡ ok false
        → changes
            (sync_listeners_and_members cloud web_lb web
              (lit "10.0.0.5" ∷ [])
              (lit "subnet-1")
              []).1
          ≡ 0)
sync_listeners_and_members-changes_example =
    sync_listeners_and_members-changes cloud web_lb web (lit "10.0.0.5" ∷ []) (lit "subnet-1") []

sweep_orphan_nova_servers_calls_example :
    All (ServerCall cloud known) (sweep_orphan_nova_servers cloud true known []).1
sweep_orphan_nova_servers_calls_example = sweep_orphan_nova_servers_calls cloud known true

ensure_sg_attached_only_adds_example :
    All
      (AttachCall cloud (lit "net-1") (lit "10.0.0.5" ∷ []) (lit "sg-1"))
      (ensure_sg_attached_to_workers cloud (lit "sg-1") (lit "10.0.0.5" ∷ []) (lit "net-1") []).1
ensure_sg_attached_only_adds_example =
    ensure_sg_attached_only_adds cloud (lit "sg-1") (lit "net-1") (lit "10.0.0.5" ∷ [])

demo-IsToken : IsToken demo
unfolding contains_byte
demo-IsToken = record { non_empty = refl; no_slash = refl }

shop-IsToken : IsToken shop
unfolding contains_byte
shop-IsToken = record { non_empty = refl; no_slash = refl }

parse_cluster_from_lb_name-service_lb_name_example :
    parse_cluster_from_lb_name (service_lb_name demo shop web_name) ≡ some demo
parse_cluster_from_lb_name-service_lb_name_example =
    parse_cluster_from_lb_name-service_lb_name demo shop web_name demo-IsToken

parse_service_from_tag-service_lb_name_example :
    parse_service_from_tag (service_lb_name demo shop web_name) ≡ some (demo, shop, web_name)
unfolding contains_byte
parse_service_from_tag-service_lb_name_example =
    parse_service_from_tag-service_lb_name demo shop web_name demo-IsToken shop-IsToken refl refl

service_tag_read :
    parse_service_from_tag (service_lb_name demo shop web_name) ≡ some (demo, shop, web_name)
unfolding parse_service_from_tag service_lb_name managed_name_prefix lit has_prefix cut_byte
    trim_prefix contains_byte
service_tag_read = refl

parse_service_from_tag_sound_example :
    (service_lb_name demo shop web_name ≡ service_lb_name demo shop web_name)
    × IsToken demo
    × IsToken shop
    × (is_empty web_name ≡ false)
    × (contains_byte b':' web_name ≡ false)
parse_service_from_tag_sound_example =
    parse_service_from_tag_sound (service_lb_name demo shop web_name) demo shop web_name
      service_tag_read

tenant_from_secret_name-round_trip_example :
    (tenant_from_secret_name (kubeconfig_name_prefix ++ (demo ++ kubeconfig_suffix)) ≡ demo)
    × (is_kubeconfig_secret_name (kubeconfig_name_prefix ++ (demo ++ kubeconfig_suffix)) ≡ true)
tenant_from_secret_name-round_trip_example = tenant_from_secret_name-round_trip demo

-- The prefix and the suffix share a dash: this name is taken for that of a tenant "admin-kubeconfig".
shared_dash :
    tenant_from_secret_name (lit "kubernetes-switchcloud-admin-kubeconfig") ≡ lit "admin-kubeconfig"
unfolding tenant_from_secret_name kubeconfig_name_prefix kubeconfig_suffix lit has_prefix has_suffix
    trim_prefix trim_suffix cut_suffix bytes_eq
shared_dash = refl

abbrev worker : Member
worker = record { address = demo; protocol_port = 30080; subnet_id = shop }

worker-same : drift (worker ∷ []) 30080 (demo ∷ []) shop ≡ false
unfolding drift differs address_set members_by_ip lookup insert any_of bytes_eq
worker-same = refl

drift-false_example :
    (m : Member) × In m (worker ∷ [])
    × (m.address ≡ demo)
    × (m.protocol_port ≡ 30080)
    × (m.subnet_id ≡ shop)
drift-false_example = drift-false (worker ∷ []) 30080 (demo ∷ []) shop worker-same demo (here refl)
