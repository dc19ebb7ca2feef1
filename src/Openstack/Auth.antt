-- ===== src/Openstack/Auth.antt =====
-- auth.go: the clients of a tenant's project.
use kubernetes_switchcloud.Base.{Bool, true, false, ◌||◌, Bytes, lit, is_empty, if◌then◌else◌}
use kubernetes_switchcloud.Cloud.Types.{
  Api, Credentials, Result, ok, err, authenticate, new_service_client,
}
use kubernetes_switchcloud.Cloud.Action.{
  M, return, fail, ◌>>=◌, ◌>>◌, request, wrap, try, new_error,
}

abbrev pub is_ok {ℓ} : {A : Type ℓ} → Result A → Bool
is_ok (ok a) = true
is_ok (err e) = false

module _ (api : Api) where
  unfoldable pub service_client : Bytes → Bytes → M (Unit {0})
  service_client kind region =
      request (new_service_client kind region) (λ log. api.new_service_client log kind region)

  -- NewClients: whether there is a client for Nova. Without one of the other two it fails.
  unfoldable pub new_clients : Credentials → M Bool
  unfolding service_client
  new_clients creds =
      if is_empty creds.auth_url
      then fail (new_error (lit "openstack: AuthURL is required"))
      else if is_empty creds.application_credential_id
          || is_empty creds.application_credential_secret
      then fail (new_error (lit "openstack: application credential id+secret are required"))
      else if is_empty creds.region_name
      then fail (new_error (lit "openstack: RegionName is required"))
      else do
        wrap (lit "authenticating against OpenStack")
            (request (authenticate creds) (λ log. api.authenticate log creds))
        wrap (lit "building Octavia LBv2 client")
            (service_client (lit "load-balancer") creds.region_name)
        wrap (lit "building Neutron v2 client") (service_client (lit "network") creds.region_name)
        compute ← try (service_client (lit "compute") creds.region_name)
        return (is_ok compute)
