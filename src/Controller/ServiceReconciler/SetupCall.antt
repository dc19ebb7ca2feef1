-- ===== src/Controller/ServiceReconciler/SetupCall.antt =====
-- The calls by which a pass sets a Service up, each with what its arguments are.
use kubernetes_switchcloud.Base.{
  false, true, ◌≡◌, ◌⊎◌, List, [], ◌∷◌, Bytes, In, map, bytes_eq, contains_string, ◌==◌,
}
use kubernetes_switchcloud.Cloud.Types.{
  Api, Call, Log, Service, ServicePort, LoadBalancer, Listener, Pool, SecGroup, RuleOpts, Result,
  ok, err, create_lb, create_listener, delete_listener, create_pool, batch_update_members,
  create_fip, create_sg, create_rule, update_port, patch_ingress,
}
use kubernetes_switchcloud.Cloud.Hoare.{OkMeets, Returned}
use kubernetes_switchcloud.Cloud.Pages.{InPages}
use kubernetes_switchcloud.Ksc.{LoadBalancerConfig}
use kubernetes_switchcloud.Openstack.Names.{service_lb_name, cluster_sg_name}
use kubernetes_switchcloud.Openstack.LoadBalancer.{listener_name, member_opts}
use kubernetes_switchcloud.Openstack.LoadBalancer.Deletion.{LbOfService}
use kubernetes_switchcloud.Openstack.Network.{resolve_member_subnet}
use kubernetes_switchcloud.Openstack.PortAttach.{list_worker_ips_on_network}
use kubernetes_switchcloud.Openstack.PortAttach.Attached.{Attaches, Detaches}
use kubernetes_switchcloud.Openstack.SecurityGroup.{baseline_rules, desired_rule}
use kubernetes_switchcloud.Openstack.SecurityGroup.Rules.{port_key}
use kubernetes_switchcloud.Controller.ServiceReconciler.{public_address}

-- Octavia has listed the listener as one of the load balancer.
abbrev pub ListenerOf : Api → Bytes → Listener → Type 0
ListenerOf api lb_id l = (log : Log) × InPages l (api.list_listeners log lb_id)

-- Octavia has listed the pool as one of the load balancer, and it is the listener's.
abbrev pub PoolOf : Api → Bytes → Bytes → Pool → Type 0
PoolOf api lb_id listener_id pool =
    ((log : Log) × InPages pool (api.list_pools log lb_id))
    × (contains_string pool.listeners listener_id ≡ true)

-- The group of the cluster: listed under its name, or created with it.
abbrev pub ClusterGroup : Api → Bytes → Bytes → Type 0
ClusterGroup api tenant id =
    (sg : SecGroup) × (sg.id ≡ id)
    × ((((log : Log) × InPages sg (api.list_sgs log (cluster_sg_name tenant)))
          × (bytes_eq sg.name (cluster_sg_name tenant) ≡ true))
        ⊎ ((log : Log) × (description : Bytes) × (api.create_sg log (cluster_sg_name tenant)
                description
              ≡ ok sg)))

-- The apiserver has returned this for the Service.
abbrev pub Refetched : Api → Bytes → Service → Service → Type 0
Refetched api tenant svc fresh =
    (log : Log) × (api.get_service log tenant svc.namespace svc.name ≡ ok fresh)

pub Refetched-if_ok :
    (api : Api) (tenant : Bytes) (svc : Service) (log : Log) (r : Result Service)
    → api.get_service log tenant svc.namespace svc.name ≡ r
    → OkMeets (Refetched api tenant svc) r
Refetched-if_ok api tenant svc log (ok s) e = (log, e)
Refetched-if_ok api tenant svc log (err x) e = tt

module _ (api : Api) (tenant : Bytes) (svc : Service) (cfg : LoadBalancerConfig) where
  -- A listed listener of the Service's load balancer that has the name of the port.
  abbrev pub ListenerFor : LoadBalancer → Listener → ServicePort → Type 0
  ListenerFor lb l p =
      LbOfService api tenant svc lb
      × ListenerOf api lb.id l
      × In p svc.ports
      × (l.name ≡ listener_name p)

  abbrev pub WorkerIps : List Bytes → Type 0
  WorkerIps ips = Returned (list_worker_ips_on_network api cfg.vip_network_id) ips

  -- The group that carries the rules: the configured one, or the cluster's.
  abbrev pub RulesGroup : Bytes → Type 0
  RulesGroup id = (id ≡ cfg.worker_security_group_id) ⊎ ClusterGroup api tenant id

  -- A rule that a port of the Service and an allowed CIDR ask for.
  abbrev pub PortRule : RuleOpts → Type 0
  PortRule opts =
      (sg_id : Bytes) × RulesGroup sg_id
      × (p : ServicePort) × (cidr : Bytes) × In p svc.ports
      × In cidr cfg.allowed_cidrs
      × ((p.node_port == 0) ≡ false)
      × (opts ≡ record (desired_rule tenant svc (port_key p cidr)) { sec_group_id = sg_id })

  abbrev pub SetupCall : Call → Type 0
  SetupCall (create_lb opts) =
      (opts.name ≡ service_lb_name tenant svc.namespace svc.name)
      × (opts.vip_network_id ≡ cfg.vip_network_id)
  SetupCall (create_listener opts) =
      (lb : LoadBalancer) × LbOfService api tenant svc lb
      × (p : ServicePort) × In p svc.ports
      × (opts ≡ record {
        name = listener_name p;
        loadbalancer_id = lb.id;
        protocol = p.protocol;
        protocol_port = p.port;
      })
  SetupCall (delete_listener id) =
      (lb : LoadBalancer) × LbOfService api tenant svc lb
      × (l : Listener) × (id ≡ l.id)
      × ListenerOf api lb.id l
      × (contains_string (map listener_name svc.ports) l.name ≡ false)
  SetupCall (create_pool opts) =
      (lb : LoadBalancer) × (l : Listener) × (p : ServicePort) × ListenerFor lb l p
      × (opts.listener_id ≡ l.id)
      × (opts.protocol ≡ p.protocol)
  SetupCall (batch_update_members id opts) =
      (lb : LoadBalancer) × (l : Listener) × (p : ServicePort) × ListenerFor lb l p
      × (pool : Pool) × (id ≡ pool.id)
      × PoolOf api lb.id l.id pool
      × (ips : List Bytes) × WorkerIps ips
      × (subnet : Bytes) × Returned (resolve_member_subnet api cfg.vip_network_id) subnet
      × (opts ≡ map (member_opts p.node_port subnet) ips)
  SetupCall (create_fip opts) =
      (lb : LoadBalancer) × LbOfService api tenant svc lb
      × (opts.port_id ≡ lb.vip_port_id)
      × (opts.description ≡ service_lb_name tenant svc.namespace svc.name)
  SetupCall (create_sg name _) = name ≡ cluster_sg_name tenant
  SetupCall (create_rule opts) =
      ((sg_id : Bytes) × ClusterGroup api tenant sg_id × In opts (baseline_rules sg_id))
      ⊎ PortRule opts
  SetupCall (update_port id sgs) =
      (ips : List Bytes) × WorkerIps ips
      × (((sg_id : Bytes) × ClusterGroup api tenant sg_id
            × Attaches api cfg.vip_network_id ips sg_id id sgs)
          ⊎ Detaches api cfg.vip_network_id ips id sgs)
  SetupCall (patch_ingress t n s ips) =
      (t ≡ tenant)
      × (fresh : Service) × Refetched api tenant svc fresh
      × (n ≡ fresh.namespace)
      × (s ≡ fresh.name)
      × (lb : LoadBalancer) × LbOfService api tenant svc lb
      × (vip : Bytes) × Returned (public_address api tenant svc cfg lb) vip
      × (ips ≡ vip ∷ [])
  SetupCall _ = ⊥
