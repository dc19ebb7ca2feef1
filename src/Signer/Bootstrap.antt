-- ===== src/Signer/Bootstrap.antt =====
-- talos-csr-signer/internal/bootstrap/token.go and main.go: the bootstrap token of the workload
-- cluster.
pub mod Kept
use kubernetes_switchcloud.Base.{
  ℕ, Bool, true, false, not, List, [], ◌∷◌, ◌++◌, Option, none, some, Bytes, lit, is_empty,
  cut_byte, if◌then◌else◌, String,
}
use kubernetes_switchcloud.Cloud.Types.{Error, Result, ok, err}
use kubernetes_switchcloud.Cloud.Action.{new_error, wrapped}

-- A Secret to be created in kube-system.
pub record TokenSecret : Type 0 where
  pub name : Bytes
  pub type : Bytes
  pub string_data : List (Bytes × Bytes)

-- What the libraries answer: the file and its secrets.bootstraptoken, the client of the kubeconfig,
-- and the apiserver of the workload cluster.
pub record Workload : Type 0 where
  pub read_file : Bytes → Result Bytes
  pub unmarshal_token : Bytes → Result Bytes
  pub build_config : Bytes → Result Bytes
  pub new_client : Bytes → Result (Unit {0})
  pub get_secret : Bytes → Result (Unit {0})
  pub create_secret : TokenSecret → Result (Unit {0})

-- TokenFromBundle
unfoldable pub token_from_bundle : Workload → Bytes → Result Bytes
token_from_bundle w bundle_dir = elim (w.read_file (bundle_dir ++ lit "/bundle")) [
  | err e ↦ err (wrapped (lit "read bundle") e)
  | ok raw ↦ elim (w.unmarshal_token raw) [
    | err e ↦ err (wrapped (lit "parse bundle") e)
    | ok token ↦
        if is_empty token
        then err (new_error (lit "secrets.bootstraptoken not found in bundle"))
        else ok token
  ]
]

-- The Secret of EnsureToken.
abbrev pub token_secret : Bytes → Bytes → TokenSecret
token_secret id secret = record {
  name = lit "bootstrap-token-" ++ id;
  type = lit "bootstrap.kubernetes.io/token";
  string_data =
      (lit "token-id", id)
      ∷ (lit "token-secret", secret)
      ∷ (lit "usage-bootstrap-authentication", lit "true")
      ∷ (lit "usage-bootstrap-signing", lit "true")
      ∷ (lit "auth-extra-groups", lit "system:bootstrappers:kubeadm:default-node-token")
      ∷ [];
}

-- EnsureToken: the result, and the Secret that was sent to be created, if one was.
unfoldable pub ensure_token : Workload → Bytes → Result (Unit {0}) × Option TokenSecret
ensure_token w token = elim (cut_byte b'.' token) [
  | none ↦ (err (new_error (lit "invalid bootstrap token format: expected id.secret")), none)
  | some (id, secret) ↦ elim (w.get_secret (lit "bootstrap-token-" ++ id)) [
    | ok _ ↦ (ok tt, none)
    | err e ↦
        if not e.not_found
        then (err (wrapped (lit "get bootstrap token") e), none)
        else elim (w.create_secret (token_secret id secret)) [
          | err e' ↦
              (err (wrapped (lit "create bootstrap token") e'), some (token_secret id secret))
          | ok _ ↦ (ok tt, some (token_secret id secret))
        ]
  ]
]

-- ensureBootstrapToken
unfoldable pub ensure_bootstrap_token :
    Workload → Bytes → Bytes → Result (Unit {0}) × Option TokenSecret
unfolding token_from_bundle ensure_token
ensure_bootstrap_token w bundle_dir kubeconfig_path = elim (token_from_bundle w bundle_dir) [
  | err e ↦ (err e, none)
  | ok token ↦ elim (w.build_config kubeconfig_path) [
    | err e ↦ (err (wrapped (lit "build kubeconfig") e), none)
    | ok cfg ↦ elim (w.new_client cfg) [
      | err e ↦ (err (wrapped (lit "create k8s client") e), none)
      | ok _ ↦ ensure_token w token
    ]
  ]
]
