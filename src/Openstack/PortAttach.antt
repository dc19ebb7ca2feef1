-- ===== src/Openstack/PortAttach.antt =====
-- portattach.go: the security groups on the Neutron ports of the workers.
pub mod Attached
use kubernetes_switchcloud.Base.{
  Bool, true, false, not, ◌||◌, List, [], ◌∷◌, ◌++◌, Option, none, some, Bytes, lit, is_empty,
  bytes_eq, contains_string, keep_if, if◌then◌else◌, String,
}
use kubernetes_switchcloud.Cloud.Types.{
  Api, Call, Port, SecGroup, Result, ok, err, Pages, last, page, broken, list_ports, update_port,
}
use kubernetes_switchcloud.Cloud.Action.{
  M, return, fail, ◌>>=◌, ◌>>◌, request, listing, lift, wrap, new_error, for_each,
}
use kubernetes_switchcloud.Cloud.Pages.{find_in_pages, collect_onto}
use kubernetes_switchcloud.Openstack.SecurityGroup.{find_sg_by_name}

abbrev pub is_nil {ℓ} : {A : Type ℓ} → List A → Bool
is_nil [] = true
is_nil (x ∷ xs) = false

-- hasSG
abbrev pub has_sg : List Bytes → Bytes → Bool
has_sg = contains_string

-- The inner loops of ListWorkerIPsOnNetwork: the addresses of one page, put behind `out`.
unfoldable pub fixed_ips_onto : List Bytes → List Port → List Bytes
fixed_ips_onto out [] = out
fixed_ips_onto out (p ∷ ps) =
    fixed_ips_onto (out ++ keep_if (λ ip. not (is_empty ip)) p.fixed_ips) ps

unfoldable pub collect_fixed_ips : List Bytes → Pages Port → Result (List Bytes)
unfolding fixed_ips_onto
collect_fixed_ips out last = ok out
collect_fixed_ips out (broken e) = err e
collect_fixed_ips out (page ps rest) = collect_fixed_ips (fixed_ips_onto out ps) rest

-- The groups of a port without one of them.
unfoldable pub without_sg : Bytes → List Bytes → List Bytes
without_sg sg_id groups = keep_if (λ sg. not (bytes_eq sg sg_id)) groups

module _ (api : Api) where
  -- findPortByIP
  unfoldable pub find_port_by_ip : Bytes → Bytes → M (Option Port)
  find_port_by_ip network_id ip = do
    pages ← listing (list_ports network_id ip []) (λ log. api.list_ports log network_id ip [])
    lift (find_in_pages (λ p. true) pages)

  -- ListWorkerIPsOnNetwork
  unfoldable pub list_worker_ips_on_network : Bytes → M (List Bytes)
  list_worker_ips_on_network worker_network_id =
      if is_empty worker_network_id then fail (new_error (lit "workerNetworkID is empty")) else do
        pages ←
            listing (list_ports worker_network_id [] (lit "compute:nova"))
              (λ log. api.list_ports log worker_network_id [] (lit "compute:nova"))
        lift (collect_fixed_ips [] pages)

  -- One round of the loop of EnsureSGAttachedToWorkers.
  unfoldable pub attach_sg : Bytes → Bytes → Bytes → M (Unit {0})
  unfolding find_port_by_ip
  attach_sg sg_id worker_network_id ip = do
    found ← wrap (lit "looking up port for member " ++ ip) (find_port_by_ip worker_network_id ip)
    elim found [
      | none ↦ return tt
      | some port ↦ if has_sg port.security_groups sg_id then return tt else do
        let new_sgs = port.security_groups ++ (sg_id ∷ [])
        wrap (lit "attaching SG to worker port")
              (request (update_port port.id new_sgs) (λ log. api.update_port log port.id new_sgs))
            >>= λ _. return tt
    ]

  -- EnsureSGAttachedToWorkers
  unfoldable pub ensure_sg_attached_to_workers : Bytes → List Bytes → Bytes → M (Unit {0})
  unfolding attach_sg
  ensure_sg_attached_to_workers sg_id member_ips worker_network_id =
      if is_empty sg_id || is_empty worker_network_id || is_nil member_ips
      then return tt
      else for_each (attach_sg sg_id worker_network_id) member_ips

  -- One round of the loop of DetachDefaultSGFromWorkers.
  unfoldable pub detach_sg : Bytes → Bytes → Bytes → M (Unit {0})
  unfolding find_port_by_ip without_sg
  detach_sg default_sg_id worker_network_id ip = do
    found ← wrap (lit "looking up port for member " ++ ip) (find_port_by_ip worker_network_id ip)
    elim found [
      | none ↦ return tt
      | some port ↦ if not (has_sg port.security_groups default_sg_id) then return tt else do
        let new_sgs = without_sg default_sg_id port.security_groups
        if is_nil new_sgs
            then fail (new_error (lit "refusing to detach default SG from port"))
            else wrap (lit "detaching default SG from worker port")
                (request (update_port port.id new_sgs) (λ log. api.update_port log port.id new_sgs))
              >>= λ _. return tt
    ]

  -- DetachDefaultSGFromWorkers
  unfoldable pub detach_default_sg_from_workers : List Bytes → Bytes → M (Unit {0})
  unfolding detach_sg
  detach_default_sg_from_workers member_ips worker_network_id =
      if is_empty worker_network_id || is_nil member_ips then return tt else do
        default_sg ←
            wrap (lit "looking up project default SG") (find_sg_by_name api (lit "default"))
        elim default_sg [
          | none ↦ return tt
          | some sg ↦ for_each (detach_sg sg.id worker_network_id) member_ips
        ]
