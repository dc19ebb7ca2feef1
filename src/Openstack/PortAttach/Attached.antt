-- ===== src/Openstack/PortAttach/Attached.antt =====
-- portattach.go: what the worker ports are told.
use kubernetes_switchcloud.Base.{
  true, false, not, ◌||◌, ◌≡◌, refl, List, [], ◌∷◌, ◌++◌, none, some, Bytes, lit, All, In, is_empty,
  bytes_eq, not→true, bytes_eq_iff, All-of_In,
}
use kubernetes_switchcloud.Cloud.Types.{
  Api, Call, Log, Port, SecGroup, list_ports, update_port, list_sgs,
}
use kubernetes_switchcloud.Cloud.Hoare.{
  Ensures, Any, return_ensures, fail_ensures, lift_ensures, request-Any, listing_ensures,
  bind_ensures, wrap_rule, if_ensures, for_each_ensures, calls_meet,
}
use kubernetes_switchcloud.Cloud.Pages.{
  AllPages, InPages, AllPages-of_InPages, SomePasses, find_in_pages-OkMeets,
}
use kubernetes_switchcloud.Openstack.SecurityGroup.{find_sg_by_name}
use kubernetes_switchcloud.Openstack.PortAttach.{
  find_port_by_ip, attach_sg, ensure_sg_attached_to_workers, detach_sg,
  detach_default_sg_from_workers, without_sg, is_nil, has_sg,
}

-- Neutron has listed the group for the name "default".
abbrev pub ListedDefault : Api → SecGroup → Type 0
ListedDefault api sg = (log : Log) × InPages sg (api.list_sgs log (lit "default"))

-- Neutron has listed the port for the address on the network.
abbrev pub PortOfIp : Api → Bytes → Bytes → Port → Type 0
PortOfIp api network ip port = (log : Log) × InPages port (api.list_ports log network ip [])

module _ (api : Api) (network : Bytes) (ips : List Bytes) where
  -- An update of a listed worker port that keeps its groups, in their order, and puts `sg_id`, which
  -- it lacked, behind them.
  abbrev pub Attaches : Bytes → Bytes → List Bytes → Type 0
  Attaches sg_id id sgs =
      (port : Port) × (ip : Bytes) × In ip ips
      × (port.id ≡ id)
      × PortOfIp api network ip port
      × (has_sg port.security_groups sg_id ≡ false)
      × (sgs ≡ port.security_groups ++ (sg_id ∷ []))

  -- An update of a listed worker port that takes a listed group of the name "default" off, and
  -- leaves at least one.
  abbrev pub Detaches : Bytes → List Bytes → Type 0
  Detaches id sgs =
      (port : Port) × (sg : SecGroup) × (ip : Bytes) × In ip ips
      × (port.id ≡ id)
      × PortOfIp api network ip port
      × ListedDefault api sg
      × (sg.name ≡ lit "default")
      × (has_sg port.security_groups sg.id ≡ true)
      × (sgs ≡ without_sg sg.id port.security_groups)
      × (is_nil sgs ≡ false)

  abbrev pub AttachCall : Bytes → Call → Type 0
  AttachCall sg_id (list_ports _ _ _) = Unit
  AttachCall sg_id (update_port id sgs) = Attaches sg_id id sgs
  AttachCall sg_id _ = ⊥

  abbrev pub DetachCall : Call → Type 0
  DetachCall (list_ports _ _ _) = Unit
  DetachCall (list_sgs _) = Unit
  DetachCall (update_port id sgs) = Detaches id sgs
  DetachCall _ = ⊥

  find_port_ensures :
      (P : Call → Type 0) (ip : Bytes)
      → P (list_ports network ip [])
      → Ensures P
          (find_port_by_ip api network ip)
          (SomePasses (PortOfIp api network ip) (λ p. true))
  unfolding find_port_by_ip
  find_port_ensures P ip p =
      bind_ensures
        (listing_ensures {Q = AllPages (PortOfIp api network ip)} _ _ p
          (λ log. AllPages-of_InPages (PortOfIp api network ip) _ (λ port i. (log, i))))
        (λ pages h. lift_ensures _ (find_in_pages-OkMeets (PortOfIp api network ip) _ pages h))

  attach_sg_ensures :
      (sg_id : Bytes) (P : Call → Type 0)
      → ((net addr dev : Bytes) → P (list_ports net addr dev))
      → ((id : Bytes) (sgs : List Bytes) → Attaches sg_id id sgs → P (update_port id sgs))
      → (ip : Bytes) → In ip ips
      → Ensures P (attach_sg api sg_id network ip) Any
  unfolding attach_sg
  attach_sg_ensures sg_id P lists updates ip i =
      bind_ensures (wrap_rule _ (find_port_ensures P ip (lists _ _ _))) (elim [
        | none ↦ λ q. return_ensures tt tt
        | some port ↦ λ q.
            if_ensures (has_sg port.security_groups sg_id) (λ _. return_ensures tt tt)
              (λ e.
                bind_ensures
                  (wrap_rule _ (request-Any _ _ (updates _ _ (port, ip, i, refl, q.0, e, refl))))
                  (λ _ _. return_ensures tt tt))
      ])

  detach_sg_ensures :
      (P : Call → Type 0)
      → ((net addr dev : Bytes) → P (list_ports net addr dev))
      → ((id : Bytes) (sgs : List Bytes) → Detaches id sgs → P (update_port id sgs))
      → (sg : SecGroup) (ip : Bytes) → ListedDefault api sg × (sg.name ≡ lit "default")
      → In ip ips
      → Ensures P (detach_sg api sg.id network ip) Any
  unfolding detach_sg
  detach_sg_ensures P lists updates sg ip d i =
      bind_ensures (wrap_rule _ (find_port_ensures P ip (lists _ _ _))) (elim [
        | none ↦ λ q. return_ensures tt tt
        | some port ↦ λ q.
            if_ensures (not (has_sg port.security_groups sg.id)) (λ _. return_ensures tt tt)
              (λ e.
                if_ensures (is_nil (without_sg sg.id port.security_groups)) (λ _. fail_ensures _)
                  (λ f.
                    bind_ensures
                      (wrap_rule _ (
                        request-Any _ _ (
                          updates _ _
                            (port, sg, ip, i, refl, q.0, d.0, d.1, not→true _ e, refl, f))))
                      (λ _ _. return_ensures tt tt)))
      ])

  find_default_ensures :
      (P : Call → Type 0)
      → P (list_sgs (lit "default"))
      → Ensures P
          (find_sg_by_name api (lit "default"))
          (SomePasses (ListedDefault api) (λ sg. bytes_eq sg.name (lit "default")))
  unfolding find_sg_by_name
  find_default_ensures P p =
      bind_ensures
        (listing_ensures {Q = AllPages (ListedDefault api)} _ _ p
          (λ log. AllPages-of_InPages (ListedDefault api) _ (λ sg i. (log, i))))
        (λ pages h. lift_ensures _ (find_in_pages-OkMeets (ListedDefault api) _ pages h))

  pub attach_ensures :
      (sg_id : Bytes) (P : Call → Type 0)
      → ((net addr dev : Bytes) → P (list_ports net addr dev))
      → ((id : Bytes) (sgs : List Bytes) → Attaches sg_id id sgs → P (update_port id sgs))
      → Ensures P (ensure_sg_attached_to_workers api sg_id ips network) Any
  unfolding ensure_sg_attached_to_workers
  attach_ensures sg_id P lists updates =
      if_ensures _ (λ _. return_ensures tt tt)
        (λ _.
          for_each_ensures ips (All-of_In _ ips (λ ip i. i))
            (attach_sg_ensures sg_id P lists updates))

  pub detach_ensures :
      (P : Call → Type 0)
      → ((net addr dev : Bytes) → P (list_ports net addr dev))
      → P (list_sgs (lit "default"))
      → ((id : Bytes) (sgs : List Bytes) → Detaches id sgs → P (update_port id sgs))
      → Ensures P (detach_default_sg_from_workers api ips network) Any
  unfolding detach_default_sg_from_workers
  detach_ensures P lists lists_default updates =
      if_ensures (is_empty network || is_nil ips) (λ _. return_ensures tt tt)
        (λ _. bind_ensures (wrap_rule _ (find_default_ensures P lists_default)) (elim [
          | none ↦ λ q. return_ensures tt tt
          | some sg ↦ λ q. for_each_ensures ips (All-of_In _ ips (λ ip i. i)) (λ ip i.
              detach_sg_ensures P lists updates sg ip (q.0, (bytes_eq_iff sg.name _).0 q.1) i)
        ]))

-- For any answers of the cloud: EnsureSGAttachedToWorkers lists ports and updates ports, and each
-- update is of a port that was listed for a worker's address, lacks the group, and gets the groups
-- it had, in order, with the group behind them.
pub ensure_sg_attached_only_adds :
    (api : Api) (sg_id network : Bytes) (ips : List Bytes)
    → All
        (AttachCall api network ips sg_id)
        (ensure_sg_attached_to_workers api sg_id ips network []).1
ensure_sg_attached_only_adds api sg_id network ips =
    calls_meet (AttachCall api network ips sg_id) Any _ (
      (attach_ensures api network ips sg_id (AttachCall api network ips sg_id) (λ _ _ _. tt)
          (λ _ _ h. h)).run
        [] tt)
