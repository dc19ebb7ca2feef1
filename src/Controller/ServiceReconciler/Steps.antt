-- ===== src/Controller/ServiceReconciler/Steps.antt =====
-- The kinds of calls that the steps of a pass make: those of auth.go, resolve.go, network.go,
-- portattach.go, floatingip.go, loadbalancer.go and securitygroup.go.
use kubernetes_switchcloud.Base.{not, ◌||◌, none, some, Bytes, is_empty, find_first, is_empty}
use kubernetes_switchcloud.Cloud.Types.{Api, Call, KscObject, Credentials, ok, err}
use kubernetes_switchcloud.Cloud.Hoare.{
  Ensures, Any, return_ensures, fail_ensures, request-Any, wrap_rule, if_ensures, option_ensures,
}
use kubernetes_switchcloud.Cloud.AnyResult.{IsRead, lift-Any, listing-Any, try-Any, any_bind}
use kubernetes_switchcloud.Ksc.{
  read_clouds_yaml, resolve_credentials, auto_discover_network_id, resolve_vip_network, resolve,
}
use kubernetes_switchcloud.Openstack.Auth.{new_clients, service_client}
use kubernetes_switchcloud.Openstack.Network.{find_first_external_network, resolve_member_subnet}
use kubernetes_switchcloud.Openstack.PortAttach.{list_worker_ips_on_network}
use kubernetes_switchcloud.Openstack.SecurityGroup.{find_sg_by_name, lookup_cluster_security_group}

module _ (api : Api) (P : Call → Type 0) (reads : (c : Call) → IsRead c → P c) where
  pub new_clients-Any : (creds : Credentials) → Ensures P (new_clients api creds) Any
  unfolding new_clients service_client
  new_clients-Any creds =
      if_ensures (is_empty creds.auth_url) (λ _. fail_ensures _)
        (λ _.
          if_ensures
            (is_empty creds.application_credential_id
              || is_empty creds.application_credential_secret)
            (λ _. fail_ensures _)
            (λ _.
              if_ensures (is_empty creds.region_name) (λ _. fail_ensures _)
                (λ _. any_bind (wrap_rule _ (request-Any _ _ (reads _ tt))) (λ _.
                  any_bind (wrap_rule _ (request-Any _ _ (reads _ tt))) (λ _.
                    any_bind (wrap_rule _ (request-Any _ _ (reads _ tt))) (λ _.
                      any_bind (try-Any (request-Any _ _ (reads _ tt)))
                        (λ _. return_ensures _ tt)))))))

  read_clouds_yaml-Any : (secret : Bytes) → Ensures P (read_clouds_yaml api secret) Any
  unfolding read_clouds_yaml
  read_clouds_yaml-Any secret = any_bind (wrap_rule _ (request-Any _ _ (reads _ tt))) (elim [
    | none ↦ fail_ensures _
    | some raw ↦ any_bind (wrap_rule _ (lift-Any _)) (λ clouds.
        option_ensures (find_first (λ c. not (is_empty c.0)) clouds) (λ _. fail_ensures _)
          (λ c _. return_ensures _ tt))
  ])

  resolve_credentials-Any : (ksc : KscObject) → Ensures P (resolve_credentials api ksc) Any
  unfolding resolve_credentials
  resolve_credentials-Any ksc =
      if_ensures (not (is_empty ksc.existing_secret))
        (λ _. any_bind (read_clouds_yaml-Any ksc.existing_secret) (λ c. return_ensures _ tt))
        (λ _.
          if_ensures
            (is_empty ksc.application_credential_id || is_empty ksc.application_credential_secret)
            (λ _. fail_ensures _) (λ _. return_ensures _ tt))

  resolve_vip_network-Any :
      (tenant : Bytes) (ksc : KscObject) → Ensures P (resolve_vip_network api tenant ksc) Any
  unfolding resolve_vip_network auto_discover_network_id
  resolve_vip_network-Any tenant ksc =
      if_ensures (not (is_empty ksc.vip_network_id)) (λ _. return_ensures _ tt)
        (λ _.
          if_ensures (not (is_empty ksc.network_id)) (λ _. return_ensures _ tt)
            (λ _. wrap_rule _ (
              any_bind (try-Any (request-Any _ _ (reads _ tt))) (elim [
                | ok id ↦ return_ensures _ tt
                | err e ↦
                    if_ensures e.not_found (λ _. return_ensures _ tt)
                      (λ _. wrap_rule _ (fail_ensures _))
              ]))))

  pub resolve-Any : (tenant : Bytes) → Ensures P (resolve api tenant) Any
  unfolding resolve
  resolve-Any tenant = any_bind (wrap_rule _ (request-Any _ _ (reads _ tt))) (λ ksc.
      any_bind (wrap_rule _ (resolve_credentials-Any ksc)) (λ creds.
        if_ensures (not ksc.enabled) (λ _. return_ensures _ tt)
          (λ _. any_bind (resolve_vip_network-Any tenant ksc) (λ id.
            if_ensures (is_empty id) (λ _. return_ensures _ tt)
              (λ _. any_bind (lift-Any _) (λ canon. return_ensures _ tt))))))

  pub find_sg-Any : (name : Bytes) → Ensures P (find_sg_by_name api name) Any
  unfolding find_sg_by_name
  find_sg-Any name = any_bind (listing-Any _ _ (reads _ tt)) (λ pages. lift-Any _)

  pub lookup_cluster_security_group-Any :
      (cluster : Bytes) → Ensures P (lookup_cluster_security_group api cluster) Any
  unfolding lookup_cluster_security_group
  lookup_cluster_security_group-Any cluster =
      any_bind (wrap_rule _ (find_sg-Any _))
        (elim [ none ↦ return_ensures _ tt | some sg ↦ return_ensures _ tt ])

  pub find_first_external_network-Any : Ensures P (find_first_external_network api) Any
  unfolding find_first_external_network
  find_first_external_network-Any = any_bind (listing-Any _ _ (reads _ tt)) (λ pages.
      any_bind (lift-Any _) (elim [ none ↦ return_ensures _ tt | some n ↦ return_ensures _ tt ]))

  pub resolve_member_subnet-Any : (id : Bytes) → Ensures P (resolve_member_subnet api id) Any
  unfolding resolve_member_subnet
  resolve_member_subnet-Any id =
      if_ensures (is_empty id) (λ _. fail_ensures _)
        (λ _. any_bind (listing-Any _ _ (reads _ tt)) (λ pages. any_bind (lift-Any _) (elim [
          | none ↦ fail_ensures _
          | some s ↦ if_ensures (is_empty s.id) (λ _. fail_ensures _) (λ _. return_ensures _ tt)
        ])))

  pub list_worker_ips-Any : (id : Bytes) → Ensures P (list_worker_ips_on_network api id) Any
  unfolding list_worker_ips_on_network
  list_worker_ips-Any id =
      if_ensures (is_empty id) (λ _. fail_ensures _)
        (λ _. any_bind (listing-Any _ _ (reads _ tt)) (λ pages. lift-Any _))
