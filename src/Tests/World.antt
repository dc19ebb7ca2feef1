-- ===== src/Tests/World.antt =====
-- A cloud and a tenant for the examples: a Service "web" of the cluster "demo", and what a cluster
-- "gone" has left behind.
use kubernetes_switchcloud.Base.{true, false, [], ◌∷◌, ◌++◌, none, Bytes, lit}
use kubernetes_switchcloud.Cloud.Types.{
  Api, LoadBalancer, Listener, Pool, FloatingIp, SecGroup, SecGroupRule, Port, Subnet, Server,
  ServicePort, Service, HelmRelease, KscObject, Secret, ok, last, page,
}
use kubernetes_switchcloud.Sniproxy.Peek.Hello.{ClientHello}
use kubernetes_switchcloud.Multicluster.{kubeconfig_name_prefix, kubeconfig_suffix}
use kubernetes_switchcloud.Multicluster.Manager.{kubeconfig_secret_key}
use kubernetes_switchcloud.Openstack.Names.{
  service_lb_name, cluster_sg_name, ksc_server_name_prefix,
}

abbrev pub demo : Bytes
demo = b'd' ∷ b'e' ∷ b'm' ∷ b'o' ∷ []

abbrev pub shop : Bytes
shop = b's' ∷ b'h' ∷ b'o' ∷ b'p' ∷ []

abbrev pub web_name : Bytes
web_name = b'w' ∷ b'e' ∷ b'b' ∷ []

abbrev pub http_port : ServicePort
http_port = record { name = lit "http"; protocol = lit "TCP"; port = 80; node_port = 30080 }

abbrev pub web : Service
web = record {
  namespace = shop;
  name = web_name;
  type = lit "LoadBalancer";
  finalizers = lit "loadbalancer.switchcloud.aenix.io/cleanup" ∷ [];
  deleting = false;
  ports = http_port ∷ [];
  ingress = [];
}

abbrev pub web_lb : LoadBalancer
web_lb = record {
  id = lit "lb-1";
  name = service_lb_name demo shop web_name;
  provisioning_status = lit "ACTIVE";
  operating_status = lit "ONLINE";
  vip_address = lit "10.0.0.9";
  vip_port_id = lit "port-9";
}

abbrev pub gone_lb : LoadBalancer
gone_lb = record web_lb { id = lit "lb-2"; name = service_lb_name (lit "gone") shop web_name }

abbrev pub web_listener : Listener
web_listener = record { id = lit "listener-1"; name = lit "port-80-tcp" }

abbrev pub web_pool : Pool
web_pool = record { id = lit "pool-1"; listeners = lit "listener-1" ∷ [] }

abbrev pub web_fip : FloatingIp
web_fip = record {
  id = lit "fip-1";
  floating_ip = lit "203.0.113.7";
  description = service_lb_name demo shop web_name;
}

abbrev pub cluster_sg : SecGroup
cluster_sg = record { id = lit "sg-1"; name = cluster_sg_name demo }

abbrev pub default_sg : SecGroup
default_sg = record { id = lit "sg-0"; name = lit "default" }

abbrev pub old_rule : SecGroupRule
old_rule = record {
  id = lit "rule-1";
  direction = lit "ingress";
  description = lit "cozystack:demo/shop/web:31000/tcp:0.0.0.0/0";
  ether_type = lit "IPv4";
  port_range_min = 31000;
  port_range_max = 31000;
  protocol = lit "tcp";
  remote_group_id = [];
  remote_ip_prefix = lit "0.0.0.0/0";
}

abbrev pub worker_port : Port
worker_port = record {
  id = lit "port-1";
  fixed_ips = lit "10.0.0.5" ∷ [];
  security_groups = lit "sg-0" ∷ lit "sg-2" ∷ [];
}

abbrev pub subnet4 : Subnet
subnet4 = record { id = lit "subnet-1"; ip_version = 4; cidr = lit "10.0.0.0/24" }

abbrev pub gone_server : Server
gone_server = record { id = lit "server-1"; name = ksc_server_name_prefix ++ lit "gone-md0-1" }

abbrev pub demo_server : Server
demo_server = record { id = lit "server-2"; name = ksc_server_name_prefix ++ lit "demo-md0-1" }

abbrev pub release : HelmRelease
release = record {
  namespace = lit "tenant-root";
  name = lit "kubernetes-switchcloud-demo";
  app_name = demo;
  finalizers = [];
  deleting = false;
}

abbrev pub ksc : KscObject
ksc = record {
  namespace = lit "tenant-root";
  enabled = true;
  provider_driver = lit "ovn";
  vip_network_id = lit "net-1";
  network_id = [];
  floating_network_id = lit "net-2";
  floating_subnet_id = [];
  worker_security_group_id = [];
  allowed_cidrs = lit "0.0.0.0/0" ∷ [];
  auth_url = lit "https://keystone";
  region_name = lit "region";
  existing_secret = [];
  application_credential_id = lit "id";
  application_credential_secret = lit "secret";
}

abbrev pub demo_secret : Secret
demo_secret = record {
  namespace = lit "tenant-root";
  name = kubeconfig_name_prefix ++ (demo ++ kubeconfig_suffix);
  contents = (kubeconfig_secret_key, b'k' ∷ []) ∷ [];
}

abbrev pub gone_secret : Secret
gone_secret = record demo_secret {
  name = kubeconfig_name_prefix ++ (lit "gone" ++ kubeconfig_suffix);
}

abbrev pub cloud : Api
cloud = record {
  order = λ log k. 0;
  authenticate = λ log a. ok tt;
  new_service_client = λ log a b. ok tt;
  list_lbs = λ log n. page (web_lb ∷ gone_lb ∷ []) last;
  create_lb = λ log o. ok web_lb;
  delete_lb = λ log a. ok tt;
  list_listeners = λ log l. page (web_listener ∷ []) last;
  create_listener = λ log o. ok web_listener;
  delete_listener = λ log a. ok tt;
  list_pools = λ log l. last;
  create_pool = λ log o. ok web_pool;
  list_members = λ log p. last;
  batch_update_members = λ log a b. ok tt;
  list_fips = λ log p. page (web_fip ∷ []) last;
  create_fip = λ log o. ok web_fip;
  delete_fip = λ log a. ok tt;
  list_sgs = λ log n. page (cluster_sg ∷ default_sg ∷ []) last;
  create_sg = λ log n d. ok cluster_sg;
  delete_sg = λ log a. ok tt;
  list_rules = λ log s. page (old_rule ∷ []) last;
  create_rule = λ log o. ok old_rule;
  delete_rule = λ log a. ok tt;
  list_ports = λ log n ip o. page (worker_port ∷ []) last;
  update_port = λ log p s. ok worker_port;
  list_networks = λ log. last;
  list_subnets = λ log n. page (subnet4 ∷ []) last;
  list_servers = λ log. page (gone_server ∷ demo_server ∷ []) last;
  delete_server = λ log a. ok tt;
  get_service = λ log t n s. ok web;
  patch_finalizers = λ log a b c d. ok tt;
  patch_ingress = λ log a b c d. ok tt;
  get_release = λ log n s. ok release;
  list_releases = λ log n. ok (release ∷ []);
  patch_release = λ log a b c. ok tt;
  get_ksc = λ log t. ok ksc;
  get_secret = λ log s. ok none;
  get_openstack_cluster = λ log n s. ok [];
  list_secrets = λ log n. ok (demo_secret ∷ gone_secret ∷ []);
  delete_secret = λ log n s. ok tt;
  parse_clouds = λ raw. ok [];
  parse_prefix = λ raw. ok raw;
}

abbrev pub hello : ClientHello
hello = record {
  head =
      3 ∷ 3 ∷ 0 ∷ 0 ∷ 0 ∷ 0 ∷ 0 ∷ 0 ∷ 0 ∷ 0 ∷ 0 ∷ 0 ∷ 0 ∷ 0 ∷ 0 ∷ 0 ∷ 0 ∷ 0 ∷ 0 ∷ 0 ∷ 0 ∷ 0 ∷ 0 ∷ 0
      ∷ 0 ∷ 0 ∷ 0 ∷ 0 ∷ 0 ∷ 0 ∷ 0 ∷ 0 ∷ 0 ∷ 0 ∷ [];
  session = [];
  cipher_suites = 19 ∷ 1 ∷ [];
  compression = 0 ∷ [];
  before = (10, 0 ∷ 29 ∷ []) ∷ [];
  names_before = [];
  host = demo;
  names_after = [];
  after = [];
}
