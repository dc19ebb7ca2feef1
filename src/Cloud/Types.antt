-- ===== src/Cloud/Types.antt =====
-- The objects of OpenStack and Kubernetes as far as the program reads them, and the calls it makes.
use kubernetes_switchcloud.Base.{ℕ, Bool, Option, List, Bytes}

-- Octavia.
pub record LoadBalancer : Type 0 where
  pub id : Bytes
  pub name : Bytes
  pub provisioning_status : Bytes
  pub operating_status : Bytes
  pub vip_address : Bytes
  pub vip_port_id : Bytes

pub record Listener : Type 0 where
  pub id : Bytes
  pub name : Bytes

pub record Pool : Type 0 where
  pub id : Bytes
  pub listeners : List Bytes

pub record Member : Type 0 where
  pub address : Bytes
  pub protocol_port : ℕ
  pub subnet_id : Bytes

-- Neutron.
pub record FloatingIp : Type 0 where
  pub id : Bytes
  pub floating_ip : Bytes
  pub description : Bytes

pub record SecGroup : Type 0 where
  pub id : Bytes
  pub name : Bytes

pub record SecGroupRule : Type 0 where
  pub id : Bytes
  pub direction : Bytes
  pub description : Bytes
  pub ether_type : Bytes
  pub port_range_min : ℕ
  pub port_range_max : ℕ
  pub protocol : Bytes
  pub remote_group_id : Bytes
  pub remote_ip_prefix : Bytes

pub record Port : Type 0 where
  pub id : Bytes
  pub fixed_ips : List Bytes
  pub security_groups : List Bytes

pub record Network : Type 0 where
  pub id : Bytes
  pub router_external : Bool

pub record Subnet : Type 0 where
  pub id : Bytes
  pub ip_version : ℕ
  pub cidr : Bytes

-- Nova.
pub record Server : Type 0 where
  pub id : Bytes
  pub name : Bytes

-- What the program asks to be created.
pub record LoadBalancerOpts : Type 0 where
  pub name : Bytes
  pub description : Bytes
  pub provider : Bytes
  pub vip_network_id : Bytes

pub record ListenerOpts : Type 0 where
  pub name : Bytes
  pub loadbalancer_id : Bytes
  pub protocol : Bytes
  pub protocol_port : ℕ

pub record PoolOpts : Type 0 where
  pub name : Bytes
  pub lb_method : Bytes
  pub protocol : Bytes
  pub listener_id : Bytes
  pub description : Bytes

pub record MemberOpts : Type 0 where
  pub name : Bytes
  pub address : Bytes
  pub protocol_port : ℕ
  pub subnet_id : Bytes

pub record FloatingIpOpts : Type 0 where
  pub description : Bytes
  pub floating_network_id : Bytes
  pub subnet_id : Bytes
  pub port_id : Bytes

pub record RuleOpts : Type 0 where
  pub sec_group_id : Bytes
  pub direction : Bytes
  pub ether_type : Bytes
  pub port_range_min : ℕ
  pub port_range_max : ℕ
  pub protocol : Bytes
  pub remote_group_id : Bytes
  pub remote_ip_prefix : Bytes
  pub description : Bytes

-- Kubernetes: a Service of a tenant. Ports are never negative in an object that the apiserver took.
pub record ServicePort : Type 0 where
  pub name : Bytes
  pub protocol : Bytes
  pub port : ℕ
  pub node_port : ℕ

pub record Service : Type 0 where
  pub namespace : Bytes
  pub name : Bytes
  pub type : Bytes
  pub finalizers : List Bytes
  pub deleting : Bool
  pub ports : List ServicePort
  pub ingress : List Bytes

-- The fields of a HelmRelease that are read: its labels for kind and name, and whether it has a
-- deletion timestamp.
pub record HelmRelease : Type 0 where
  pub namespace : Bytes
  pub name : Bytes
  pub app_name : Bytes
  pub finalizers : List Bytes
  pub deleting : Bool

-- The fields of a Secret that are read.
pub record Secret : Type 0 where
  pub namespace : Bytes
  pub name : Bytes
  pub contents : List (Bytes × Bytes)

-- openstack.Credentials
pub record Credentials : Type 0 where
  pub auth_url : Bytes
  pub region_name : Bytes
  pub application_credential_id : Bytes
  pub application_credential_secret : Bytes

-- The fields of a KubernetesSwitchcloud resource that are read. A field that is not there, or is of
-- another type, reads as the empty string, the empty list or false.
pub record KscObject : Type 0 where
  pub namespace : Bytes
  pub enabled : Bool
  pub provider_driver : Bytes
  pub vip_network_id : Bytes
  pub network_id : Bytes
  pub floating_network_id : Bytes
  pub floating_subnet_id : Bytes
  pub worker_security_group_id : Bytes
  pub allowed_cidrs : List Bytes
  pub auth_url : Bytes
  pub region_name : Bytes
  pub existing_secret : Bytes
  pub application_credential_id : Bytes
  pub application_credential_secret : Bytes

-- An error of a call: whether it is the apiserver's NotFound, and its message.
pub record Error : Type 0 where
  pub not_found : Bool
  pub message : Bytes

pub data Result {ℓ} (A : Type ℓ) : Type ℓ where
  ok : A → Result A
  err : Error → Result A

-- A pager: the pages as the caller goes through them, one of which may fail to load.
pub data Pages (A : Type 0) : Type 0 where
  last : Pages A
  page : List A → Pages A → Pages A
  broken : Error → Pages A

-- Each request that leaves the program, with its arguments.
pub data Call : Type 0 where
  authenticate : Credentials → Call
  new_service_client : Bytes → Bytes → Call
  list_lbs : Bytes → Call
  create_lb : LoadBalancerOpts → Call
  delete_lb : Bytes → Call
  list_listeners : Bytes → Call
  create_listener : ListenerOpts → Call
  delete_listener : Bytes → Call
  list_pools : Bytes → Call
  create_pool : PoolOpts → Call
  list_members : Bytes → Call
  batch_update_members : Bytes → List MemberOpts → Call
  list_fips : Bytes → Call
  create_fip : FloatingIpOpts → Call
  delete_fip : Bytes → Call
  list_sgs : Bytes → Call
  create_sg : Bytes → Bytes → Call
  delete_sg : Bytes → Call
  list_rules : Bytes → Call
  create_rule : RuleOpts → Call
  delete_rule : Bytes → Call
  list_ports : Bytes → Bytes → Bytes → Call
  update_port : Bytes → List Bytes → Call
  list_networks : Call
  list_subnets : Bytes → Call
  list_servers : Call
  delete_server : Bytes → Call
  get_service : Bytes → Bytes → Bytes → Call
  patch_finalizers : Bytes → Bytes → Bytes → List Bytes → Call
  patch_ingress : Bytes → Bytes → Bytes → List Bytes → Call
  get_release : Bytes → Bytes → Call
  list_releases : Bytes → Call
  patch_release : Bytes → Bytes → List Bytes → Call
  get_ksc : Bytes → Call
  get_secret : Bytes → Call
  get_openstack_cluster : Bytes → Bytes → Call
  list_secrets : Bytes → Call
  delete_secret : Bytes → Bytes → Call

abbrev pub Log : Type 0
Log = List Call

-- The answers, each by the calls made before it, the newest first. `order` fixes the order in which
-- a range over a Go map goes.
pub record Api : Type 0 where
  pub order : Log → ℕ → ℕ
  pub authenticate : Log → Credentials → Result (Unit {0})
  pub new_service_client : Log → Bytes → Bytes → Result (Unit {0})
  pub list_lbs : Log → Bytes → Pages LoadBalancer
  pub create_lb : Log → LoadBalancerOpts → Result LoadBalancer
  pub delete_lb : Log → Bytes → Result (Unit {0})
  pub list_listeners : Log → Bytes → Pages Listener
  pub create_listener : Log → ListenerOpts → Result Listener
  pub delete_listener : Log → Bytes → Result (Unit {0})
  pub list_pools : Log → Bytes → Pages Pool
  pub create_pool : Log → PoolOpts → Result Pool
  pub list_members : Log → Bytes → Pages Member
  pub batch_update_members : Log → Bytes → List MemberOpts → Result (Unit {0})
  pub list_fips : Log → Bytes → Pages FloatingIp
  pub create_fip : Log → FloatingIpOpts → Result FloatingIp
  pub delete_fip : Log → Bytes → Result (Unit {0})
  pub list_sgs : Log → Bytes → Pages SecGroup
  pub create_sg : Log → Bytes → Bytes → Result SecGroup
  pub delete_sg : Log → Bytes → Result (Unit {0})
  pub list_rules : Log → Bytes → Pages SecGroupRule
  pub create_rule : Log → RuleOpts → Result SecGroupRule
  pub delete_rule : Log → Bytes → Result (Unit {0})
  pub list_ports : Log → Bytes → Bytes → Bytes → Pages Port
  pub update_port : Log → Bytes → List Bytes → Result Port
  pub list_networks : Log → Pages Network
  pub list_subnets : Log → Bytes → Pages Subnet
  pub list_servers : Log → Pages Server
  pub delete_server : Log → Bytes → Result (Unit {0})
  pub get_service : Log → Bytes → Bytes → Bytes → Result Service
  pub patch_finalizers : Log → Bytes → Bytes → Bytes → List Bytes → Result (Unit {0})
  pub patch_ingress : Log → Bytes → Bytes → Bytes → List Bytes → Result (Unit {0})
  pub get_release : Log → Bytes → Bytes → Result HelmRelease
  pub list_releases : Log → Bytes → Result (List HelmRelease)
  pub patch_release : Log → Bytes → Bytes → List Bytes → Result (Unit {0})
  pub get_ksc : Log → Bytes → Result KscObject
  -- The value under the key clouds.yaml, if the Secret has it.
  pub get_secret : Log → Bytes → Result (Option Bytes)
  -- status.network.id
  pub get_openstack_cluster : Log → Bytes → Bytes → Result Bytes
  pub list_secrets : Log → Bytes → Result (List Secret)
  pub delete_secret : Log → Bytes → Bytes → Result (Unit {0})
  -- yaml.Unmarshal of a clouds.yaml: the identifiers and secrets of its clouds, as a range over
  -- them goes.
  pub parse_clouds : Bytes → Result (List (Bytes × Bytes))
  -- netip.ParsePrefix, masked and printed.
  pub parse_prefix : Bytes → Result Bytes
