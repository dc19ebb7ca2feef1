-- ===== src/Multicluster.antt =====
-- loadbalancer-controller/internal/multicluster/manager.go: the names of the kubeconfig Secrets by
-- which the manager knows its tenants.
pub mod RoundTrip
pub mod Session
pub mod Manager
use kubernetes_switchcloud.Base.{
  Bool, true, false, not, ◌||◌, [], Bytes, lit, is_empty, has_prefix, has_suffix, trim_prefix,
  trim_suffix, if◌then◌else◌,
}

unfoldable pub kubeconfig_name_prefix : Bytes
kubeconfig_name_prefix = lit "kubernetes-switchcloud-"

unfoldable pub kubeconfig_suffix : Bytes
kubeconfig_suffix = lit "-admin-kubeconfig"

-- tenantFromSecretName
unfoldable pub tenant_from_secret_name : Bytes → Bytes
tenant_from_secret_name name =
    if not (has_prefix name kubeconfig_name_prefix) || not (has_suffix name kubeconfig_suffix)
    then []
    else trim_suffix (trim_prefix name kubeconfig_name_prefix) kubeconfig_suffix

-- isKubeconfigSecretName
unfoldable pub is_kubeconfig_secret_name : Bytes → Bool
is_kubeconfig_secret_name name =
    if not (has_prefix name kubeconfig_name_prefix) || not (has_suffix name kubeconfig_suffix)
    then false
    else not (is_empty (tenant_from_secret_name name))
