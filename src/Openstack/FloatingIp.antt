-- ===== src/Openstack/FloatingIp.antt =====
-- floatingip.go: the floating address on the port of a load balancer.
pub mod Calls
use kubernetes_switchcloud.Base.{
  Bool, true, false, List, Option, none, some, Bytes, lit, is_empty, if◌then◌else◌, ◌++◌, String,
}
use kubernetes_switchcloud.Cloud.Types.{
  Api, Call, FloatingIp, FloatingIpOpts, list_fips, create_fip, delete_fip,
}
use kubernetes_switchcloud.Cloud.Action.{
  M, return, fail, ◌>>=◌, ◌>>◌, request, listing, lift, wrap, new_error,
}
use kubernetes_switchcloud.Cloud.Pages.{find_in_pages}

module _ (api : Api) where
  -- findFIPByPortID: the first item of the first page that has one.
  unfoldable pub find_fip_by_port_id : Bytes → M (Option FloatingIp)
  find_fip_by_port_id port_id = do
    pages ← listing (list_fips port_id) (λ log. api.list_fips log port_id)
    lift (find_in_pages (λ fip. true) pages)

  -- EnsureFloatingIP
  unfoldable pub ensure_floating_ip : Bytes → Bytes → Bytes → Bytes → M Bytes
  unfolding find_fip_by_port_id
  ensure_floating_ip vip_port_id floating_network_id floating_subnet_id description =
      if is_empty vip_port_id
      then fail (new_error (lit "vipPortID is empty"))
      else if is_empty floating_network_id
      then fail (new_error (lit "floatingNetworkID is empty"))
      else do
        existing ←
            wrap (lit "looking up existing FIP for VIP port") (find_fip_by_port_id vip_port_id)
        elim existing [
          | some fip ↦ return fip.floating_ip
          | none ↦ do
            let opts : FloatingIpOpts = record {
              description = description;
              floating_network_id = floating_network_id;
              subnet_id = floating_subnet_id;
              port_id = vip_port_id;
            }
            created ←
                wrap (lit "creating floating IP")
                  (request (create_fip opts) (λ log. api.create_fip log opts))
            return created.floating_ip
        ]

  -- DeleteFloatingIP
  unfoldable pub delete_floating_ip : Bytes → M (Unit {0})
  unfolding find_fip_by_port_id
  delete_floating_ip vip_port_id = if is_empty vip_port_id then return tt else do
    existing ← wrap (lit "looking up FIP for delete") (find_fip_by_port_id vip_port_id)
    elim existing [
      | none ↦ return tt
      | some fip ↦
          wrap (lit "deleting floating IP " ++ fip.id)
            (request (delete_fip fip.id) (λ log. api.delete_fip log fip.id))
    ]
