-- ===== src/Controller/ServiceReconciler/PassCall.antt =====
-- The calls that a pass over a Service may make, each with the reason for it.
use kubernetes_switchcloud.Base.{true, false, [], ◌∷◌, ◌++◌, Bytes, ◌≡◌, ◌⊎◌}
use kubernetes_switchcloud.Cloud.Types.{
  Api, Call, Log, Service, LoadBalancer, FloatingIp, SecGroupRule, Error, ok, err, delete_lb,
  delete_fip, delete_rule, patch_finalizers, patch_ingress,
}
use kubernetes_switchcloud.Cloud.Action.{try}
use kubernetes_switchcloud.Cloud.Hoare.{Returned}
use kubernetes_switchcloud.Cloud.AnyResult.{IsRead}
use kubernetes_switchcloud.Ksc.{LoadBalancerConfig, resolve, is_not_found}
use kubernetes_switchcloud.Openstack.Names.{is_managed}
use kubernetes_switchcloud.Openstack.FloatingIp.Calls.{FipOnPort}
use kubernetes_switchcloud.Openstack.LoadBalancer.Deletion.{LbOfService, LbGone}
use kubernetes_switchcloud.Openstack.SecurityGroup.Owned.{OwnedRule}
use kubernetes_switchcloud.Controller.ServiceReconciler.{
  finalizer_name, is_load_balancer, has_finalizer, remove_string, is_helm_release_deleting,
}
use kubernetes_switchcloud.Controller.ServiceReconciler.SetupCall.{Refetched, SetupCall}

module _ (api : Api) (tenant ns name : Bytes) where
  -- The apiserver of the tenant has returned the Service.
  abbrev pub Fetched : Service → Type 0
  Fetched svc = (log : Log) × (api.get_service log tenant ns name ≡ ok svc)

  -- The Service is to be provisioned as configured: the finalizer may be added, or is there already.
  abbrev pub Live : Service → LoadBalancerConfig → Type 0
  Live svc cfg =
      (is_load_balancer svc ≡ true)
      × (svc.deleting ≡ false)
      × Returned (try (resolve api tenant)) (ok cfg)
      × (cfg.enabled ≡ true)
      × Returned (is_helm_release_deleting api tenant) false

  -- The finalizer may go: no load balancer is left, or the cluster is being deleted or is gone.
  abbrev pub MayDrop : Service → Type 0
  MayDrop svc =
      LbGone api tenant svc
      ⊎ (Returned (is_helm_release_deleting api tenant) true
          ⊎ ((e : Error) × Returned (try (resolve api tenant)) (err e) × (is_not_found e ≡ true)))

  -- A call that sets up the Service that was fetched, as its cluster's configuration wants it.
  abbrev pub Provisions : Call → Type 0
  Provisions c =
      (svc : Service) × (cfg : LoadBalancerConfig) × Fetched svc
      × Live svc cfg
      × (has_finalizer svc ≡ true)
      × SetupCall api tenant svc cfg c

  -- The calls that end something, and the patches of finalizers.
  abbrev pub EndCall : Call → Type 0
  EndCall (patch_finalizers t n s fs) =
      (t ≡ tenant)
      × (svc : Service) × Fetched svc
      × (n ≡ svc.namespace)
      × (s ≡ svc.name)
      × (((fs ≡ svc.finalizers ++ (finalizer_name ∷ []))
            × (has_finalizer svc ≡ false)
            × ((cfg : LoadBalancerConfig) × Live svc cfg))
          ⊎ ((fs ≡ remove_string svc.finalizers finalizer_name) × MayDrop svc))
  EndCall (patch_ingress t n s ips) =
      (t ≡ tenant)
      × (ips ≡ [])
      × (svc : Service) × Fetched svc
      × LbGone api tenant svc
      × (fresh : Service) × Refetched api tenant svc fresh
      × (n ≡ fresh.namespace)
      × (s ≡ fresh.name)
  EndCall (delete_lb id) =
      (svc : Service) × Fetched svc
      × (lb : LoadBalancer) × (id ≡ lb.id)
      × LbOfService api tenant svc lb
      × (is_managed lb ≡ true)
  EndCall (delete_fip id) =
      (svc : Service) × Fetched svc
      × (lb : LoadBalancer) × LbOfService api tenant svc lb
      × (fip : FloatingIp) × (id ≡ fip.id)
      × FipOnPort api lb.vip_port_id fip
  EndCall (delete_rule id) =
      (svc : Service) × Fetched svc
      × (sg_id : Bytes) × (r : SecGroupRule) × (id ≡ r.id)
      × OwnedRule api sg_id tenant svc r
  EndCall _ = ⊥

  -- The calls of a pass over the Service of the given name.
  abbrev pub PassCall : Call → Type 0
  PassCall c = IsRead c ⊎ (Provisions c ⊎ EndCall c)
