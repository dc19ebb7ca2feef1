-- ===== src/Openstack/LoadBalancer.antt =====
-- loadbalancer.go: the Octavia load balancer of a Service, its listeners, pools and members.
pub mod Deletion
pub mod OneChange
pub mod Members
use kubernetes_switchcloud.Base.{
  ℕ, Bool, true, false, not, ◌&&◌, ◌||◌, List, [], ◌∷◌, ◌++◌, map, Option, none, some, Bytes, lit,
  is_empty, bytes_eq, contains_string, decimal, to_lower, replace_byte, bytes_key, lookup, insert,
  length, any_of, range_order, if◌then◌else◌, ◌==◌, String,
}
use kubernetes_switchcloud.Cloud.Types.{
  Api, Call, LoadBalancer, LoadBalancerOpts, Listener, ListenerOpts, Pool, PoolOpts, Member,
  MemberOpts, Service, ServicePort, Result, ok, err, list_lbs, create_lb, delete_lb, list_listeners,
  create_listener, delete_listener, list_pools, create_pool, list_members, batch_update_members,
}
use kubernetes_switchcloud.Cloud.Action.{
  M, return, fail, ◌>>=◌, ◌>>◌, request, listing, lift, wrap, new_error, map_order,
}
use kubernetes_switchcloud.Cloud.Pages.{find_in_pages, collect}
use kubernetes_switchcloud.Openstack.Names.{service_lb_name, is_managed, managed_name_prefix}
use kubernetes_switchcloud.Openstack.FloatingIp.{delete_floating_ip}

unfoldable pub status_active : Bytes
status_active = lit "ACTIVE"

unfoldable pub status_error : Bytes
status_error = lit "ERROR"

unfoldable pub status_pending_delete : Bytes
status_pending_delete = lit "PENDING_DELETE"

-- The ports of the Service, if each has a protocol of OVN and a nodePort.
unfoldable pub desired_ports : List ServicePort → Result (List ServicePort)
desired_ports [] = ok []
desired_ports (p ∷ ps) =
    if not (contains_string (lit "TCP" ∷ lit "UDP" ∷ lit "SCTP" ∷ []) p.protocol)
    then err (new_error (lit "port has unsupported protocol"))
    else if p.node_port == 0
    then err (new_error (lit "port has no nodePort allocated"))
    else elim (desired_ports ps) [ ok qs ↦ ok (p ∷ qs) | err e ↦ err e ]

-- byName: a later listener takes the place of an earlier one of its name.
unfoldable pub by_name_onto : List (Bytes × Listener) → List Listener → List (Bytes × Listener)
by_name_onto m [] = m
by_name_onto m (l ∷ ls) = by_name_onto (insert l.name l m) ls

unfoldable pub listener_name : ServicePort → Bytes
listener_name p = lit "port-" ++ (decimal p.port ++ (lit "-" ++ to_lower p.protocol))

-- desired, as a set
unfoldable pub address_set : List (Bytes × Unit {0}) → List Bytes → List (Bytes × Unit {0})
address_set m [] = m
address_set m (ip ∷ ips) = address_set (insert ip tt m) ips

-- currentByIP
unfoldable pub members_by_ip : List (Bytes × Member) → List Member → List (Bytes × Member)
members_by_ip m [] = m
members_by_ip m (x ∷ xs) = members_by_ip (insert x.address x m) xs

-- Does the current set miss the address, or hold it with another port or subnet?
unfoldable pub differs : List (Bytes × Member) → ℕ → Bytes → Bytes × Unit {0} → Bool
differs current node_port subnet_id (ip, _) = elim (lookup ip current) [
  | none ↦ true
  | some m ↦ not (m.protocol_port == node_port) || not (bytes_eq m.subnet_id subnet_id)
]

-- The test of syncMembers for a change.
unfoldable pub drift : List Member → ℕ → List Bytes → Bytes → Bool
unfolding differs members_by_ip address_set
drift existing node_port member_ips subnet_id =
    let desired = address_set [] member_ips in
    let current = members_by_ip [] existing in
    not (length current == length desired) || any_of (differs current node_port subnet_id) desired

unfoldable pub member_opts : ℕ → Bytes → Bytes → MemberOpts
member_opts node_port subnet_id ip = record {
  name = lit "worker-" ++ replace_byte b'.' b'-' ip;
  address = ip;
  protocol_port = node_port;
  subnet_id = subnet_id;
}

module _ (api : Api) where
  -- findLBByName
  unfoldable pub find_lb_by_name : Bytes → M (Option LoadBalancer)
  find_lb_by_name name = do
    pages ← listing (list_lbs name) (λ log. api.list_lbs log name)
    lift (find_in_pages (λ lb. bytes_eq lb.name name) pages)

  -- EnsureLB: the load balancer, and whether it is pending.
  unfoldable pub ensure_lb : Bytes → Service → Bytes → Bytes → M (LoadBalancer × Bool)
  unfolding find_lb_by_name
  ensure_lb tenant svc vip_network_id provider =
      if is_empty vip_network_id then fail (new_error (lit "vipNetworkID is empty")) else do
        let name = service_lb_name tenant svc.namespace svc.name
        existing ← wrap (lit "looking up existing LB") (find_lb_by_name name)
        elim existing [
          | some lb ↦
              if bytes_eq lb.provisioning_status status_active
              then return (lb, false)
              else if bytes_eq lb.provisioning_status status_error
              then fail (new_error (lit "LB is in provisioning_status=ERROR"))
              else return (lb, true)
          | none ↦ do
            let opts : LoadBalancerOpts = record {
              name = name;
              description =
                  lit "Managed by Cozystack loadbalancer-controller; tenant="
                  ++ (tenant ++ (lit " ns=" ++ (svc.namespace ++ (lit " svc=" ++ svc.name))));
              provider = if is_empty provider then lit "ovn" else provider;
              vip_network_id = vip_network_id;
            }
            created ←
                wrap (lit "creating Octavia LB")
                  (request (create_lb opts) (λ log. api.create_lb log opts))
            return (created, true)
        ]

  -- DeleteLB: whether the deletion is pending.
  unfoldable pub delete_service_lb : Bytes → Service → M Bool
  unfolding find_lb_by_name
  delete_service_lb tenant svc = do
    existing ←
        wrap (lit "looking up LB for delete")
          (find_lb_by_name (service_lb_name tenant svc.namespace svc.name))
    elim existing [
      | none ↦ return false
      | some lb ↦
          if not (is_managed lb)
          then fail (new_error (lit "refusing to delete LB: name does not carry the prefix"))
          else do
            wrap (lit "detaching FIP before LB delete") (delete_floating_ip api lb.vip_port_id)
            if bytes_eq lb.provisioning_status status_pending_delete then return true else do
              wrap (lit "deleting LB " ++ lb.id)
                  (request (delete_lb lb.id) (λ log. api.delete_lb log lb.id))
              return true
    ]

  -- findPoolForListener
  unfoldable pub find_pool_for_listener : Bytes → Bytes → M (Option Pool)
  find_pool_for_listener lb_id listener_id = do
    pages ← listing (list_pools lb_id) (λ log. api.list_pools log lb_id)
    lift (find_in_pages (λ p. contains_string p.listeners listener_id) pages)

  -- ensurePool: the pool, and whether this call made it.
  unfoldable pub ensure_pool : Bytes → Bytes → ServicePort → M (Pool × Bool)
  unfolding find_pool_for_listener
  ensure_pool lb_id listener_id port = do
    existing ← find_pool_for_listener lb_id listener_id
    elim existing [
      | some p ↦ return (p, false)
      | none ↦ do
        let opts : PoolOpts = record {
          name = lit "pool-" ++ listener_id;
          lb_method = lit "SOURCE_IP_PORT";
          protocol = port.protocol;
          listener_id = listener_id;
          description = lit "Managed by Cozystack loadbalancer-controller";
        }
        out ←
            wrap (lit "creating pool")
              (request (create_pool opts) (λ log. api.create_pool log opts))
        return (out, true)
    ]

  -- syncMembers: whether the members were sent.
  unfoldable pub sync_members : Bytes → ℕ → List Bytes → Bytes → M Bool
  sync_members pool_id node_port member_ips subnet_id = do
    pages ← listing (list_members pool_id) (λ log. api.list_members log pool_id)
    existing ← wrap (lit "listing pool members") (lift (collect (λ m. true) pages))
    if not (drift existing node_port member_ips subnet_id) then return false else do
      let opts = map (member_opts node_port subnet_id) member_ips
      wrap (lit "batch-updating pool " ++ (pool_id ++ lit " members")) (
          request (batch_update_members pool_id opts)
            (λ log. api.batch_update_members log pool_id opts))
      return true

  -- createListener
  unfoldable pub create_listener_for : Bytes → Bytes → ServicePort → M Listener
  create_listener_for lb_id name port = do
    let opts : ListenerOpts = record {
      name = name;
      loadbalancer_id = lb_id;
      protocol = port.protocol;
      protocol_port = port.port;
    }
    request (create_listener opts) (λ log. api.create_listener log opts)

  -- The loop over the desired ports: it yields at the first change.
  unfoldable pub sync_ports :
      Bytes → List (Bytes × Listener) → List Bytes → Bytes → List ServicePort → M Bool
  sync_ports lb_id by_name member_ips subnet_id [] = return false
  sync_ports lb_id by_name member_ips subnet_id (p ∷ ps) =
      let rest = sync_ports lb_id by_name member_ips subnet_id ps in
      elim (lookup (listener_name p) by_name) [
        | none ↦ do
          wrap (lit "creating listener") (create_listener_for lb_id (listener_name p) p) >>= λ _.
              return true
        | some listener ↦ do
          (pool, created) ←
              wrap (lit "ensuring pool for listener") (ensure_pool lb_id listener.id p)
          if created then return true else do
            changed ←
                wrap (lit "syncing members for pool")
                  (sync_members pool.id p.node_port member_ips subnet_id)
            if changed then return true else rest
      ]

  -- The loop over byName: the first listener of no port of the Service is dropped.
  unfoldable pub drop_stale : List Bytes → List (Bytes × Listener) → M Bool
  drop_stale keep [] = return false
  drop_stale keep ((name, l) ∷ rest) =
      let later = drop_stale keep rest in
      if contains_string keep name then later else do
        wrap (lit "deleting stale listener " ++ l.id)
            (request (delete_listener l.id) (λ log. api.delete_listener log l.id))
        return true

  -- SyncListenersAndMembers: whether something was changed, or the load balancer is not active.
  unfoldable pub sync_listeners_and_members : LoadBalancer → Service → List Bytes → Bytes → M Bool
  sync_listeners_and_members lb svc member_ips member_subnet_id =
      if not (bytes_eq lb.provisioning_status status_active) then return true else do
        ports ← lift (desired_ports svc.ports)
        pages ← listing (list_listeners lb.id) (λ log. api.list_listeners log lb.id)
        existing ← wrap (lit "listing existing listeners") (lift (collect (λ l. true) pages))
        let by_name = by_name_onto [] existing
        pending ← sync_ports lb.id by_name member_ips member_subnet_id ports
        if pending then return true else do
          order ← map_order api.order
          drop_stale (map listener_name ports) (range_order order by_name)
