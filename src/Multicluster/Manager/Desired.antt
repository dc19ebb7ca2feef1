-- ===== src/Multicluster/Manager/Desired.antt =====
-- manager.go: the kubeconfigs that the Secrets hold, tenant by tenant.
use kubernetes_switchcloud.Base.{
  not, ◌&&◌, ◌||◌, List, [], ◌∷◌, Option, none, some, Bytes, is_empty, bytes_eq, bytes_eq_iff,
  bytes_key, lookup, if◌then◌else◌, ◌≡◌, refl, arith, Bool-cases, Option-cases, inl, inr,
  lookup-insert, IsMap, insert-IsMap,
}
use kubernetes_switchcloud.Cloud.Types.{Secret}
use kubernetes_switchcloud.Multicluster.{tenant_from_secret_name, is_kubeconfig_secret_name}
use kubernetes_switchcloud.Multicluster.Manager.{
  SecretSnapshot, Desired, kubeconfig_secret_key, want_secret, desired_from,
}

-- The kubeconfig that a Secret holds for a tenant.
abbrev pub usable : Bytes → Option Bytes → Option Bytes
usable tenant none = none
usable tenant (some kubeconfig) = if is_empty kubeconfig then none else some kubeconfig

abbrev pub config_in : Bytes → Secret → Option Bytes
config_in tenant s =
    if is_kubeconfig_secret_name s.name
      && not (is_empty tenant)
      && bytes_eq (tenant_from_secret_name s.name) tenant
    then usable tenant (lookup kubeconfig_secret_key s.contents)
    else none

abbrev pub or_else {ℓ} : {A : Type ℓ} → Option A → Option A → Option A
or_else none b = b
or_else (some a) b = some a

-- The kubeconfig that the Secrets hold for a tenant: the last one counts.
unfoldable pub config_of : Bytes → List Secret → Option Bytes
config_of tenant [] = none
config_of tenant (s ∷ items) = or_else (config_of tenant items) (config_in tenant s)

abbrev pub snapshot_of : (Bytes → Bytes) → Option Bytes → Option SecretSnapshot
snapshot_of sha256 none = none
snapshot_of sha256 (some kubeconfig) =
    some (record { kubeconfig = kubeconfig; hash = sha256 kubeconfig })

pub lookup-want_secret :
    (sha256 : Bytes → Bytes) (s : Secret) (desired : Desired) (t : Bytes)
    → lookup t (want_secret sha256 s desired)
      ≡ or_else (snapshot_of sha256 (config_in t s)) (lookup t desired)
unfolding want_secret
lookup-want_secret sha256 s desired t =
    let tenant = tenant_from_secret_name s.name in
    elim (Option-cases (lookup kubeconfig_secret_key s.contents)) [
      | inl e ↦ ground (arith, e)
      | inr (k, e) ↦
          let new : SecretSnapshot = record { kubeconfig = k; hash = sha256 k } in
          ground (arith, e, lookup-insert tenant t new desired, bytes_eq_iff tenant t)
    ]

-- The map of the loop, tenant by tenant.
pub lookup-desired_from :
    (sha256 : Bytes → Bytes) (items : List Secret) (desired : Desired) (t : Bytes)
    → lookup t (desired_from sha256 items desired)
      ≡ or_else (snapshot_of sha256 (config_of t items)) (lookup t desired)
unfolding desired_from config_of
lookup-desired_from sha256 [] desired t = refl
lookup-desired_from sha256 (s ∷ items) desired t = ground (
  arith,
  lookup-desired_from sha256 items (want_secret sha256 s desired) t,
  lookup-want_secret sha256 s desired t,
)

pub want_secret-IsMap :
    (sha256 : Bytes → Bytes) (s : Secret) (desired : Desired)
    → IsMap desired
    → IsMap (want_secret sha256 s desired)
unfolding want_secret
want_secret-IsMap sha256 s desired h =
    let tenant = tenant_from_secret_name s.name in
    elim (Bool-cases (not (is_kubeconfig_secret_name s.name) || is_empty tenant)) [
      | inl e ↦ rw e h
      | inr e ↦ elim (Option-cases (lookup kubeconfig_secret_key s.contents)) [
        | inl f ↦ rw (e, f) h
        | inr (k, f) ↦ elim (Bool-cases (is_empty k)) [
          | inl g ↦ rw (e, f, g) h
          | inr g ↦ rw (e, f, g) (insert-IsMap tenant _ desired h)
        ]
      ]
    ]

pub desired_from-IsMap :
    (sha256 : Bytes → Bytes) (items : List Secret) (desired : Desired)
    → IsMap desired
    → IsMap (desired_from sha256 items desired)
unfolding desired_from want_secret
desired_from-IsMap sha256 [] desired h = h
desired_from-IsMap sha256 (s ∷ items) desired h =
    desired_from-IsMap sha256 items (want_secret sha256 s desired)
      (want_secret-IsMap sha256 s desired h)
