-- ===== src/Ksc.antt =====
-- loadbalancer-controller/internal/ksc/resolve.go: the configuration of a tenant.
use kubernetes_switchcloud.Base.{
  Bool, true, false, not, ◌||◌, List, [], ◌∷◌, ◌++◌, none, some, Bytes, lit, is_empty, find_first,
  if◌then◌else◌,
}
use kubernetes_switchcloud.Cloud.Types.{
  Api, Credentials, KscObject, Error, Result, ok, err, get_ksc, get_secret, get_openstack_cluster,
}
use kubernetes_switchcloud.Cloud.Action.{
  M, return, fail, ◌>>=◌, request, lift, wrap, try, new_error,
}

-- LoadBalancerConfig
pub record LoadBalancerConfig : Type 0 where
  pub enabled : Bool
  pub provider_driver : Bytes
  pub vip_network_id : Bytes
  pub floating_network_id : Bytes
  pub floating_subnet_id : Bytes
  pub worker_security_group_id : Bytes
  pub allowed_cidrs : List Bytes
  pub creds : Credentials
  pub misconfigured_reason : Bytes

-- &LoadBalancerConfig{} with credentials and the flag.
unfoldable pub bare_config : Bool → Credentials → LoadBalancerConfig
bare_config enabled creds = record {
  enabled = enabled;
  provider_driver = [];
  vip_network_id = [];
  floating_network_id = [];
  floating_subnet_id = [];
  worker_security_group_id = [];
  allowed_cidrs = [];
  creds = creds;
  misconfigured_reason = [];
}

unfoldable pub no_network_reason : Bytes
no_network_reason = lit "no worker network resolvable"

-- IsNotFound: the error at the root, below all wrapping, is the apiserver's NotFound.
abbrev pub is_not_found : Error → Bool
is_not_found e = e.not_found

-- The CIDRs of the resource, or all addresses where it names none.
unfoldable pub cidrs_or_default : List Bytes → List Bytes
cidrs_or_default [] = lit "0.0.0.0/0" ∷ []
cidrs_or_default (c ∷ cs) = c ∷ cs

module _ (api : Api) where
  -- readCloudsYAML
  unfoldable pub read_clouds_yaml : Bytes → M (Bytes × Bytes)
  read_clouds_yaml secret_name = do
    found ←
        wrap (lit "fetching existingSecret")
          (request (get_secret secret_name) (λ log. api.get_secret log secret_name))
    elim found [
      | none ↦ fail (new_error (lit "Secret missing required key clouds.yaml"))
      | some raw ↦ do
        clouds ← wrap (lit "parsing clouds.yaml") (lift (api.parse_clouds raw))
        elim (find_first (λ c. not (is_empty c.0)) clouds) [
          | none ↦ fail (new_error (lit "clouds.yaml has no application-credential entry"))
          | some c ↦ return (c.0, c.1)
        ]
    ]

  -- resolveCredentials
  unfoldable pub resolve_credentials : KscObject → M Credentials
  unfolding read_clouds_yaml
  resolve_credentials ksc =
      if not (is_empty ksc.existing_secret)
      then (do
        c ← read_clouds_yaml ksc.existing_secret
        return (record {
          auth_url = ksc.auth_url;
          region_name = ksc.region_name;
          application_credential_id = c.0;
          application_credential_secret = c.1;
        }))
      else if is_empty ksc.application_credential_id || is_empty ksc.application_credential_secret
      then fail (new_error (lit "openstack credentials missing"))
      else return (record {
        auth_url = ksc.auth_url;
        region_name = ksc.region_name;
        application_credential_id = ksc.application_credential_id;
        application_credential_secret = ksc.application_credential_secret;
      })

  -- autoDiscoverNetworkID: "" while there is no such resource.
  unfoldable pub auto_discover_network_id : Bytes → Bytes → M Bytes
  auto_discover_network_id cluster namespace = do
    let name = lit "kubernetes-switchcloud-" ++ cluster
    r ← try (
        request (get_openstack_cluster namespace name)
          (λ log. api.get_openstack_cluster log namespace name))
    elim r [
      | ok id ↦ return id
      | err e ↦ if e.not_found then return [] else wrap (lit "fetching OpenStackCluster") (fail e)
    ]

  -- The network of the VIP: the field, else the legacy field, else what CAPO made.
  unfoldable pub resolve_vip_network : Bytes → KscObject → M Bytes
  unfolding auto_discover_network_id
  resolve_vip_network tenant ksc =
      if not (is_empty ksc.vip_network_id)
      then return ksc.vip_network_id
      else if not (is_empty ksc.network_id)
      then return ksc.network_id
      else wrap (lit "auto-discovering CAPI-managed network ID")
          (auto_discover_network_id tenant ksc.namespace)

  -- The loop that canonicalises the CIDRs.
  unfoldable pub canonical_cidrs : List Bytes → Result (List Bytes)
  canonical_cidrs [] = ok []
  canonical_cidrs (raw ∷ raws) = elim (api.parse_prefix raw) [
    | err e ↦ err (record e { message = lit "parsing allowedCIDRs: " ++ e.message })
    | ok p ↦ elim (canonical_cidrs raws) [ ok ps ↦ ok (p ∷ ps) | err e ↦ err e ]
  ]

  -- Resolve
  unfoldable pub resolve : Bytes → M LoadBalancerConfig
  unfolding resolve_credentials resolve_vip_network canonical_cidrs
  resolve tenant = do
    ksc ←
        wrap (lit "fetching KubernetesSwitchcloud")
          (request (get_ksc tenant) (λ log. api.get_ksc log tenant))
    creds ← wrap (lit "resolving OpenStack credentials for tenant") (resolve_credentials ksc)
    if not ksc.enabled then return (bare_config false creds) else do
      vip_net_id ← resolve_vip_network tenant ksc
      if is_empty vip_net_id
          then return (record (bare_config false creds) {
            provider_driver = ksc.provider_driver;
            misconfigured_reason = no_network_reason;
          })
          else do
            canon ← lift (canonical_cidrs (cidrs_or_default ksc.allowed_cidrs))
            return (record {
              enabled = true;
              provider_driver = ksc.provider_driver;
              vip_network_id = vip_net_id;
              floating_network_id = ksc.floating_network_id;
              floating_subnet_id = ksc.floating_subnet_id;
              worker_security_group_id = ksc.worker_security_group_id;
              allowed_cidrs = canon;
              creds = creds;
              misconfigured_reason = [];
            })
