-- ===== src/Openstack/Network.antt =====
-- network.go: the network of floating addresses and the subnet of the pool members.
use kubernetes_switchcloud.Base.{
  not, ◌||◌, none, some, Bytes, lit, is_empty, contains, ◌==◌, if◌then◌else◌, [],
}
use kubernetes_switchcloud.Cloud.Types.{Api, list_networks, list_subnets}
use kubernetes_switchcloud.Cloud.Action.{M, return, fail, ◌>>=◌, listing, lift, new_error}
use kubernetes_switchcloud.Cloud.Pages.{find_in_pages}

module _ (api : Api) where
  -- FindFirstExternalNetwork: "" where there is none.
  unfoldable pub find_first_external_network : M Bytes
  find_first_external_network = do
    pages ← listing list_networks (λ log. api.list_networks log)
    found ← lift (find_in_pages (λ n. n.router_external) pages)
    elim found [ none ↦ return [] | some n ↦ return n.id ]

  -- ResolveMemberSubnet. A subnet with no identifier counts as none found.
  unfoldable pub resolve_member_subnet : Bytes → M Bytes
  resolve_member_subnet tenant_network_id =
      if is_empty tenant_network_id then fail (new_error (lit "tenant network ID is empty")) else do
        pages ←
            listing (list_subnets tenant_network_id) (λ log. api.list_subnets log tenant_network_id)
        found ←
            lift (find_in_pages (λ s. s.ip_version == 4 || not (contains s.cidr (lit ":"))) pages)
        elim found [
          | none ↦ fail (new_error (lit "no IPv4 subnet on network"))
          | some s ↦
              if is_empty s.id
              then fail (new_error (lit "no IPv4 subnet on network"))
              else return s.id
        ]
