-- ===== src/Multicluster/RoundTrip.antt =====
-- manager.go: the tenant in the name of its Secret.
use kubernetes_switchcloud.Base.{
  ℕ, true, false, not, ◌≡◌, refl, ap, [], ◌∷◌, ◌++◌, append_assoc, Bytes, is_empty, length,
  length-append, bytes_eq, bytes_eq_iff, has_prefix-append, has_suffix, cut_suffix,
  trim_prefix-append, trim_suffix, Bool-cases, inl, inr, arith, subst,
}
use kubernetes_switchcloud.Multicluster.{
  kubeconfig_name_prefix, kubeconfig_suffix, tenant_from_secret_name, is_kubeconfig_secret_name,
}

has_suffix_self : (q : Bytes) → has_suffix q q ≡ true
unfolding has_suffix
has_suffix_self [] = ground (arith, bytes_eq_iff [] [])
has_suffix_self (c ∷ q) = ground (arith, bytes_eq_iff (c ∷ q) (c ∷ q))

has_suffix-append : (s q : Bytes) → has_suffix (s ++ q) q ≡ true
unfolding has_suffix
has_suffix-append [] q = has_suffix_self q
has_suffix-append (c ∷ s) q = ground (arith, has_suffix-append s q)

longer : (c : ℕ) (s q : Bytes) → bytes_eq (c ∷ (s ++ q)) q ≡ false
longer c s q = elim (Bool-cases (bytes_eq (c ∷ (s ++ q)) q)) [
  | inl e ↦
      let same = ap length ((bytes_eq_iff (c ∷ (s ++ q)) q).0 e) in
      absurd (omega (arith, same, length-append s q))
  | inr e ↦ e
]

cut_suffix-append : (s q : Bytes) → cut_suffix (s ++ q) q ≡ s
unfolding cut_suffix
cut_suffix-append [] [] = refl
cut_suffix-append [] (c ∷ q) = ground (arith, bytes_eq_iff (c ∷ q) (c ∷ q))
cut_suffix-append (c ∷ s) q = ground (arith, longer c s q, cut_suffix-append s q)

-- From the name that the chart gives to the Secret of a tenant, tenantFromSecretName reads the
-- tenant back, and isKubeconfigSecretName accepts the name just where the tenant is not empty.
pub tenant_from_secret_name-round_trip :
    (tenant : Bytes)
    → (tenant_from_secret_name (kubeconfig_name_prefix ++ (tenant ++ kubeconfig_suffix)) ≡ tenant)
      × (is_kubeconfig_secret_name (kubeconfig_name_prefix ++ (tenant ++ kubeconfig_suffix))
          ≡ not (is_empty tenant))
unfolding tenant_from_secret_name is_kubeconfig_secret_name trim_suffix
tenant_from_secret_name-round_trip tenant =
    let rest = tenant ++ kubeconfig_suffix in
    let p = has_prefix-append kubeconfig_name_prefix rest in
    let s : has_suffix (kubeconfig_name_prefix ++ rest) kubeconfig_suffix ≡ true =
      subst (λ x. has_suffix x kubeconfig_suffix ≡ true)
        (append_assoc kubeconfig_name_prefix tenant kubeconfig_suffix)
        (has_suffix-append (kubeconfig_name_prefix ++ tenant) kubeconfig_suffix) in
    ground (
      arith,
      p,
      s,
      trim_prefix-append kubeconfig_name_prefix rest,
      has_suffix-append tenant kubeconfig_suffix,
      cut_suffix-append tenant kubeconfig_suffix,
    )
