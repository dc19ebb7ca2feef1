-- ===== src/Openstack/FloatingIp/Calls.antt =====
-- The calls of floatingip.go, by a predicate that they have to meet.
use kubernetes_switchcloud.Base.{true, none, some, Bytes, is_empty}
use kubernetes_switchcloud.Cloud.Types.{Api, Call, Log, FloatingIp, list_fips, delete_fip}
use kubernetes_switchcloud.Cloud.Hoare.{
  Ensures, Any, return_ensures, lift_ensures, request_ensures, listing_ensures, bind_ensures,
  wrap_rule, if_ensures, OkMeets-Any,
}
use kubernetes_switchcloud.Cloud.Pages.{
  AllPages, InPages, AllPages-of_InPages, SomePasses, find_in_pages-OkMeets,
}
use kubernetes_switchcloud.Openstack.FloatingIp.{find_fip_by_port_id, delete_floating_ip}

-- Neutron has listed the address as bound to the port.
abbrev pub FipOnPort : Api → Bytes → FloatingIp → Type 0
FipOnPort api port fip = (log : Log) × InPages fip (api.list_fips log port)

module _ (api : Api) (P : Call → Type 0) (port : Bytes) (lists : P (list_fips port)) where
  find_fip_ensures :
      Ensures P (find_fip_by_port_id api port) (SomePasses (FipOnPort api port) (λ fip. true))
  unfolding find_fip_by_port_id
  find_fip_ensures =
      bind_ensures
        (listing_ensures {Q = AllPages (FipOnPort api port)} _ _ lists
          (λ log. AllPages-of_InPages (FipOnPort api port) _ (λ fip i. (log, i))))
        (λ pages h. lift_ensures _ (find_in_pages-OkMeets (FipOnPort api port) _ pages h))

  pub delete_floating_ip_ensures :
      ((fip : FloatingIp) → FipOnPort api port fip → P (delete_fip fip.id))
      → Ensures P (delete_floating_ip api port) Any
  unfolding delete_floating_ip
  delete_floating_ip_ensures deletes =
      if_ensures (is_empty port) (λ _. return_ensures tt tt)
        (λ _. bind_ensures (wrap_rule _ find_fip_ensures) (elim [
          | none ↦ λ h. return_ensures tt tt
          | some fip ↦
              λ h. wrap_rule _ (request_ensures _ _ (deletes fip h.0) (λ log. OkMeets-Any _))
        ]))
