-- ===== src/Signer/Bootstrap/Kept.antt =====
-- talos-csr-signer/internal/bootstrap/token.go and main.go: what a run leaves in the workload
-- cluster.
use kubernetes_switchcloud.Base.{
  true, false, ◌∷◌, ◌++◌, Option, none, some, Bytes, lit, cut_byte, cut_byte-split, contains_byte,
  ◌≡◌, refl, ◌⊎◌, inl, inr, Bool-cases, Option-cases, sym, subst,
}
use kubernetes_switchcloud.Cloud.Types.{Error, Result, ok, err}
use kubernetes_switchcloud.Signer.Bootstrap.{
  TokenSecret, Workload, token_from_bundle, token_secret, ensure_token, ensure_bootstrap_token,
}

-- The Secret of the token is there, or is made: no Secret of its name was found, and one with the
-- two parts of the token was created.
abbrev pub IsKept : Workload → Bytes → Option TokenSecret → Type 0
IsKept w token sent =
    (id secret : Bytes) × (token ≡ id ++ b'.' ∷ secret)
    × (contains_byte b'.' id ≡ false)
    × (((w.get_secret (lit "bootstrap-token-" ++ id) ≡ ok tt) × (sent ≡ none))
        ⊎ ((e : Error) × (w.get_secret (lit "bootstrap-token-" ++ id) ≡ err e)
            × (e.not_found ≡ true)
            × (sent ≡ some (token_secret id secret))
            × (w.create_secret (token_secret id secret) ≡ ok tt)))

-- What a run ends with.
abbrev pub IsEnsured : Workload → Bytes → Result (Unit {0}) × Option TokenSecret → Type 0
IsEnsured w token (ok _, sent) = IsKept w token sent
IsEnsured w token (err e, none) = Unit
IsEnsured w token (err e, some s) =
    (id secret : Bytes) × (token ≡ id ++ b'.' ∷ secret)
    × (s ≡ token_secret id secret)
    × (x : Error) × (w.create_secret s ≡ err x)

ensure_token-IsEnsured : (w : Workload) (token : Bytes) → IsEnsured w token (ensure_token w token)
unfolding ensure_token
ensure_token-IsEnsured w token = elim (Option-cases (cut_byte b'.' token)) [
  | inl c ↦ rw (c, ensure_token) tt
  | inr ((id, secret), c) ↦
      let (whole, no_dot) = cut_byte-split b'.' token id secret c in
      let name = lit "bootstrap-token-" ++ id in
      let s = token_secret id secret in
      let Goal : Type 0 = IsEnsured w token (ensure_token w token) in
      elim (w.get_secret name) as (λ r. w.get_secret name ≡ r → Goal) [
        | ok u ↦ λ q. rw (c, q, ensure_token) (id, secret, whole, no_dot, inl (q, refl))
        | err e ↦ λ q. elim (Bool-cases e.not_found) [
          | inr n ↦ rw (c, q, n, ensure_token) tt
          | inl n ↦
              elim (w.create_secret s) as (λ r. w.create_secret s ≡ r → Goal) [
                | ok u ↦ λ p.
                    rw (c, q, n, p, ensure_token)
                      (id, secret, whole, no_dot, inr (e, q, n, refl, p))
                | err x ↦ λ p. rw (c, q, n, p, ensure_token) (id, secret, whole, refl, x, p)
              ]
                refl
        ]
      ]
        refl
]

kept :
    (w : Workload) (token : Bytes) (r : Result (Unit {0}) × Option TokenSecret)
    → IsEnsured w token r
    → r.0 ≡ ok tt
    → IsKept w token r.1
kept w token (ok _, sent) k h = k
kept w token (err e, none) k h = absurd (cc h)
kept w token (err e, some s) k h = absurd (cc h)

abbrev pub IsMade : Workload → Bytes → Bytes → Type 0
IsMade w bundle_dir kubeconfig_path =
    (token : Bytes) × (token_from_bundle w bundle_dir ≡ ok token)
    × IsKept w token (ensure_bootstrap_token w bundle_dir kubeconfig_path).1

-- Where a run of ensureBootstrapToken succeeds, the token in the bundle is two parts with a dot
-- between them, and the Secret of that name was found in the workload cluster, or was not found and
-- has been created with the two parts.
pub ensure_bootstrap_token-IsKept :
    (w : Workload) (bundle_dir kubeconfig_path : Bytes)
    → (ensure_bootstrap_token w bundle_dir kubeconfig_path).0 ≡ ok tt
    → IsMade w bundle_dir kubeconfig_path
unfolding ensure_bootstrap_token
ensure_bootstrap_token-IsKept w bundle_dir kubeconfig_path h =
    let Goal : Type 0 = IsMade w bundle_dir kubeconfig_path in
    elim (token_from_bundle w bundle_dir) as (λ r. token_from_bundle w bundle_dir ≡ r → Goal) [
      | err e ↦ λ t. absurd (cc (rw (t, ensure_bootstrap_token) at h))
      | ok token ↦ λ t.
          elim (w.build_config kubeconfig_path)
              as (λ r. w.build_config kubeconfig_path ≡ r → Goal) [
                | err e ↦ λ b. absurd (cc (rw (t, b, ensure_bootstrap_token) at h))
                | ok cfg ↦ λ b.
                    elim (w.new_client cfg) as (λ r. w.new_client cfg ≡ r → Goal) [
                      | err e ↦ λ c. absurd (cc (rw (t, b, c, ensure_bootstrap_token) at h))
                      | ok u ↦ λ c.
                          let same : ensure_bootstrap_token w bundle_dir kubeconfig_path
                              ≡ ensure_token w token =
                            rw (t, b, c, ensure_bootstrap_token) refl in
                          (
                            token,
                            t,
                            subst (λ r. IsKept w token r.1) (sym same)
                                (kept w token (ensure_token w token)
                                  (ensure_token-IsEnsured w token)
                                  (subst (λ r. r.0 ≡ ok tt) same h)),
                          )
                    ]
                      refl
              ]
            refl
    ]
      refl
