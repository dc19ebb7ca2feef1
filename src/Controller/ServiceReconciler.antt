-- ===== src/Controller/ServiceReconciler.antt =====
-- service_controller.go: one pass over one Service of a tenant.
pub mod Steps
pub mod SetupCall
pub mod PassCall
pub mod Setup
pub mod Finalizer
use kubernetes_switchcloud.Base.{
  ℕ, Bool, true, false, not, ◌&&◌, ◌||◌, List, [], ◌∷◌, ◌++◌, Option, none, some, Bytes, lit,
  is_empty, bytes_eq, contains_string, keep_if, if◌then◌else◌, String,
}
use kubernetes_switchcloud.Cloud.Types.{
  Api, Call, Service, HelmRelease, LoadBalancer, Error, Result, ok, err, get_service,
  patch_finalizers, patch_ingress, get_release,
}
use kubernetes_switchcloud.Cloud.Action.{
  M, return, fail, ◌>>=◌, ◌>>◌, request, wrap, try, new_error,
}
use kubernetes_switchcloud.Ksc.{LoadBalancerConfig, resolve, is_not_found}
use kubernetes_switchcloud.Openstack.Auth.{new_clients}
use kubernetes_switchcloud.Openstack.Names.{service_lb_name}
use kubernetes_switchcloud.Openstack.FloatingIp.{ensure_floating_ip}
use kubernetes_switchcloud.Openstack.LoadBalancer.{
  ensure_lb, delete_service_lb, sync_listeners_and_members,
}
use kubernetes_switchcloud.Openstack.Network.{find_first_external_network, resolve_member_subnet}
use kubernetes_switchcloud.Openstack.PortAttach.{
  list_worker_ips_on_network, ensure_sg_attached_to_workers, detach_default_sg_from_workers,
}
use kubernetes_switchcloud.Openstack.SecurityGroup.{
  ensure_cluster_security_group, lookup_cluster_security_group, ensure_node_port_rules,
  delete_node_port_rules,
}

-- FinalizerName: finalizers.Service
unfoldable pub finalizer_name : Bytes
finalizer_name = lit "loadbalancer.switchcloud.aenix.io/cleanup"

unfoldable pub tenant_namespace : Bytes
tenant_namespace = lit "tenant-root"

-- corev1.ServiceTypeLoadBalancer
unfoldable pub type_load_balancer : Bytes
type_load_balancer = lit "LoadBalancer"

-- ctrl.Result: the seconds of RequeueAfter, 0 for none.
abbrev pub Requeue : Type 0
Requeue = ℕ

abbrev pub done : Requeue
done = 0

abbrev pub pending_requeue : Requeue
pending_requeue = 5

abbrev pub member_resync_after : Requeue
member_resync_after = 60

-- removeString
unfoldable pub remove_string : List Bytes → Bytes → List Bytes
remove_string slice s = keep_if (λ v. not (bytes_eq v s)) slice

abbrev pub is_load_balancer : Service → Bool
is_load_balancer svc = bytes_eq svc.type type_load_balancer

abbrev pub has_finalizer : Service → Bool
has_finalizer svc = contains_string svc.finalizers finalizer_name

abbrev pub no_ingress : List Bytes → Bool
no_ingress [] = true
no_ingress (x ∷ xs) = false

module _ (api : Api) (tenant : Bytes) where
  -- tenantClient.Get
  unfoldable pub fetch_service : Bytes → Bytes → M Service
  fetch_service namespace name =
      request (get_service tenant namespace name) (λ log. api.get_service log tenant namespace name)

  unfoldable pub set_finalizers : Service → List Bytes → M (Unit {0})
  set_finalizers svc finalizers =
      request (patch_finalizers tenant svc.namespace svc.name finalizers)
        (λ log. api.patch_finalizers log tenant svc.namespace svc.name finalizers)

  unfoldable pub set_ingress : Service → List Bytes → M (Unit {0})
  set_ingress svc ingress =
      request (patch_ingress tenant svc.namespace svc.name ingress)
        (λ log. api.patch_ingress log tenant svc.namespace svc.name ingress)

  -- dropFinalizer
  unfoldable pub drop_finalizer : Service → M Requeue
  unfolding set_finalizers
  drop_finalizer svc = if not (has_finalizer svc) then return done else do
    wrap (lit "removing finalizer")
        (set_finalizers svc (remove_string svc.finalizers finalizer_name))
    return done

  -- isHelmReleaseDeleting: a release that is not there counts as terminating.
  unfoldable pub is_helm_release_deleting : M Bool
  is_helm_release_deleting = do
    let name = lit "kubernetes-switchcloud-" ++ tenant
    r ← try (
        request (get_release tenant_namespace name)
          (λ log. api.get_release log tenant_namespace name))
    elim r [
      | ok hr ↦ return hr.deleting
      | err e ↦ if e.not_found then return true else wrap (lit "fetching HelmRelease") (fail e)
    ]

  -- resolveCleanupSGID
  unfoldable pub resolve_cleanup_sg_id : LoadBalancerConfig → M Bytes
  resolve_cleanup_sg_id cfg =
      if not (is_empty cfg.worker_security_group_id)
      then return cfg.worker_security_group_id
      else lookup_cluster_security_group api tenant

  -- patchStatus
  unfoldable pub patch_status : Service → Bytes → M (Unit {0})
  unfolding fetch_service set_ingress
  patch_status svc vip =
      if is_empty vip
      then fail (new_error (lit "OpenStack LB returned empty VipAddress"))
      else if contains_string svc.ingress vip
      then return tt
      else do
        fresh ←
            wrap (lit "refetching Service before status patch")
              (fetch_service svc.namespace svc.name)
        wrap (lit "patching Service status loadBalancer.ingress") (set_ingress fresh (vip ∷ []))

  -- clearStatusIngress
  unfoldable pub clear_status_ingress : Service → M (Unit {0})
  unfolding fetch_service set_ingress
  clear_status_ingress svc = if no_ingress svc.ingress then return tt else do
    r ← try (fetch_service svc.namespace svc.name)
    elim r [
      | err e ↦
          if e.not_found
          then return tt
          else wrap (lit "refetching Service before clearing status") (fail e)
      | ok fresh ↦
          if no_ingress fresh.ingress
          then return tt
          else wrap (lit "patching Service status loadBalancer.ingress to empty")
              (set_ingress fresh [])
    ]

  abbrev pub delete_rules_if : Bytes → Service → M (Unit {0})
  delete_rules_if sg_id svc =
      if is_empty sg_id
      then return tt
      else wrap (lit "deleting nodePort SG rules") (delete_node_port_rules api sg_id tenant svc)

  -- cleanup
  unfoldable pub cleanup : Service → LoadBalancerConfig → M Requeue
  unfolding resolve_cleanup_sg_id
  cleanup svc cfg = if not (has_finalizer svc) then return done else do
    wrap (lit "building OpenStack clients for cleanup") (new_clients api cfg.creds) >>= λ _. do
      cleanup_sg_id ← wrap (lit "resolving cleanup SG") (resolve_cleanup_sg_id cfg)
      delete_rules_if cleanup_sg_id svc
      pending ← wrap (lit "deleting Octavia LB") (delete_service_lb api tenant svc)
      if pending then return pending_requeue else do
        wrap (lit "clearing Service status loadBalancer.ingress") (clear_status_ingress svc)
        drop_finalizer svc

  -- The pass while the release is terminating: the rules on a group of the operator are deleted if
  -- that can be done, and the finalizer is dropped.
  unfoldable pub terminate : Service → LoadBalancerConfig → M Requeue
  terminate svc cfg =
      if not (is_empty cfg.worker_security_group_id) && has_finalizer svc
      then (do
        clients ← try (new_clients api cfg.creds)
        elim clients [
          | err e ↦ drop_finalizer svc
          | ok _ ↦ do
            deleted ← try (delete_node_port_rules api cfg.worker_security_group_id tenant svc)
            drop_finalizer svc
        ])
      else drop_finalizer svc

  -- The address that is published: the floating one, where there is a network to take it from.
  unfoldable pub public_address : Service → LoadBalancerConfig → LoadBalancer → M Bytes
  public_address svc cfg lb = do
    floating_net_id ←
        (if is_empty cfg.floating_network_id
          then wrap (lit "auto-discovering floating network") (find_first_external_network api)
          else return cfg.floating_network_id)
    if is_empty floating_net_id
        then return lb.vip_address
        else wrap (lit "ensuring floating IP") (
            ensure_floating_ip api lb.vip_port_id floating_net_id cfg.floating_subnet_id
              (service_lb_name tenant svc.namespace svc.name))

  -- The group that carries the rules. One that the controller manages is put on the worker ports,
  -- and the default group is then taken off.
  unfoldable pub worker_security_group : LoadBalancerConfig → List Bytes → M Bytes
  worker_security_group cfg member_ips =
      if not (is_empty cfg.worker_security_group_id)
      then return cfg.worker_security_group_id
      else do
        sg_id ←
            wrap (lit "ensuring cluster security group") (ensure_cluster_security_group api tenant)
        wrap (lit "attaching cluster SG to worker ports")
            (ensure_sg_attached_to_workers api sg_id member_ips cfg.vip_network_id)
        wrap (lit "detaching default SG from worker ports")
            (detach_default_sg_from_workers api member_ips cfg.vip_network_id)
        return sg_id

  -- The pass over a Service that has the finalizer: everything in OpenStack, then the status.
  unfoldable pub provision : Service → LoadBalancerConfig → M Requeue
  unfolding public_address worker_security_group
  provision svc cfg = do
    wrap (lit "building OpenStack clients") (new_clients api cfg.creds) >>= λ _. do
      member_subnet_id ←
          wrap (lit "resolving member subnet") (resolve_member_subnet api cfg.vip_network_id)
      (lb, pending) ←
          wrap (lit "ensuring Octavia LB")
            (ensure_lb api tenant svc cfg.vip_network_id cfg.provider_driver)
      if pending then return pending_requeue else do
        member_ips ←
            wrap (lit "listing worker IPs from OpenStack")
              (list_worker_ips_on_network api cfg.vip_network_id)
        syncing ←
            wrap (lit "syncing listeners and members")
              (sync_listeners_and_members api lb svc member_ips member_subnet_id)
        if syncing then return pending_requeue else do
          public_addr ← public_address svc cfg lb
          worker_sg_id ← worker_security_group cfg member_ips
          wrap (lit "ensuring nodePort SG rules")
              (ensure_node_port_rules api worker_sg_id tenant svc cfg.allowed_cidrs)
          wrap (lit "patching Service status") (patch_status svc public_addr)
          return member_resync_after

  -- The part of Reconcile behind the guard for a terminating release.
  unfoldable pub reconcile_live : Service → LoadBalancerConfig → M Requeue
  unfolding set_finalizers
  reconcile_live svc cfg =
      let managed = is_load_balancer svc && cfg.enabled in
      if not managed
        && (not (is_empty cfg.misconfigured_reason)
            && (is_load_balancer svc && not (has_finalizer svc)))
      then return done
      else if not managed || svc.deleting
      then cleanup svc cfg
      else if not (has_finalizer svc)
      then (do
        wrap (lit "adding finalizer") (set_finalizers svc (svc.finalizers ++ (finalizer_name ∷ [])))
        return done)
      else provision svc cfg

  -- The part of Reconcile behind the fast path.
  unfoldable pub reconcile_claimed : Service → M Requeue
  unfolding is_helm_release_deleting
  reconcile_claimed svc = do
    r ← try (resolve api tenant)
    elim r [
      | err e ↦
          if is_not_found e
          then drop_finalizer svc
          else wrap (lit "resolving KubernetesSwitchcloud config") (fail e)
      | ok cfg ↦ do
        hr_deleting ← wrap (lit "checking HelmRelease delete state") is_helm_release_deleting
        if hr_deleting then terminate svc cfg else reconcile_live svc cfg
    ]

  -- Reconcile
  unfoldable pub reconcile : Bytes → Bytes → M Requeue
  unfolding fetch_service
  reconcile namespace name = do
    r ← try (fetch_service namespace name)
    elim r [
      | err e ↦ if e.not_found then return done else wrap (lit "fetching Service") (fail e)
      | ok svc ↦
          if not (is_load_balancer svc) && not (has_finalizer svc)
          then return done
          else reconcile_claimed svc
    ]
