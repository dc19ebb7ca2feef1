-- ===== src/Signer/Issued.antt =====
-- talos-csr-signer: what a certificate that is handed out has behind it.
use kubernetes_switchcloud.Base.{
  ◌+◌, Bool, true, false, ◌||◌, [], ◌∷◌, ◌++◌, Option, none, some, Bytes, lit, is_empty,
  if◌then◌else◌, ◌≡◌, refl, inl, inr, Bool-cases, arith, subst,
}
use kubernetes_switchcloud.Cloud.Types.{Error, Result, ok, err}
use kubernetes_switchcloud.Cloud.Hoare.{OkMeets}
use kubernetes_switchcloud.Signer.{
  PrivateKey, ecdsa, rsa, ed25519, other, Csr, server_auth, Template, Loader, Bundle, Crypto,
  or_fail, wrap_err, ◌>>=◌, parse_pkcs1, parse_private_key, new_loader, csr_template, sign_csr,
  Status, response, invalid_argument, internal, certificate,
}

-- What succeeds meets the predicate. A record, so that its parts can be read off its type.
record Meets {A : Type 0} (Q : A → Type 0) (r : Result A) : Type 0 where
  met : OkMeets Q r

module _ {A : Type 0} {Q : A → Type 0} where
  ok-Meets : (a : A) → Q a → Meets Q (ok a)
  ok-Meets a q = record { met = q }

  err-Meets : (e : Error) → Meets Q (err e)
  err-Meets e = record { met = tt }

  bind-Meets :
      {B : Type 0} (r : Result B) {f : B → Result A}
      → ((b : B) → r ≡ ok b → Meets Q (f b))
      → Meets Q (r >>= f)
  bind-Meets (ok b) h = h b refl
  bind-Meets (err e) h = record { met = tt }

  if_Meets : (b : Bool) (e : Error) {r : Result A} → Meets Q r → Meets Q (if b then err e else r)
  if_Meets true e h = record { met = tt }
  if_Meets false e h = h

  meets : (r : Result A) (a : A) → Meets Q r → r ≡ ok a → Q a
  meets (ok x) a q h = subst Q (ok_same x a h) q.met
    where
      ok_same : (x a : A) → ◌≡◌ {A = Result A} (ok x) (ok a) → x ≡ a
      ok_same x a h = ground (arith, h)
  meets (err e) a q h = absurd (cc h)

wrap_ok : {A : Type 0} (text : Bytes) (r : Result A) (a : A) → wrap_err text r ≡ ok a → r ≡ ok a
wrap_ok text (ok x) a h = h
wrap_ok text (err e) a h = absurd (cc h)

or_fail_ok : {A : Type 0} (text : Bytes) (o : Option A) (a : A) → or_fail text o ≡ ok a → o ≡ some a
or_fail_ok text (some x) a h = ground (arith, h)
or_fail_ok text none a h = absurd (cc h)

-- The certificate that a request is answered with.
pub record IsIssued (crypto : Crypto) (l : Loader) (csr_pem : Bytes) (signed : Bytes) : Type 0 where
  pub csr : Csr
  pub block : Bytes
  pub template : Template
  pub cert_der : Bytes
  pub decoded : crypto.pem_decode csr_pem ≡ some block
  pub parsed : crypto.parse_certificate_request block ≡ ok csr
  pub checked : crypto.check_signature csr ≡ ok tt
  pub made : crypto.create_certificate template l.ca_cert csr.public_key l.ca_key ≡ ok cert_der
  pub encoded : signed ≡ crypto.pem_encode (lit "CERTIFICATE") cert_der
  pub same_subject : template.subject ≡ csr.subject
  pub same_names : template.dns_names ≡ csr.dns_names
  pub same_addresses : template.ip_addresses ≡ csr.ip_addresses
  pub one_year_left : template.not_after ≡ crypto.now + 31536000
  pub servers_only : template.ext_key_usage ≡ server_auth ∷ []

sign_csr-IsIssued :
    (crypto : Crypto) (l : Loader) (csr_pem : Bytes)
    → Meets (IsIssued crypto l csr_pem) (sign_csr crypto l csr_pem)
unfolding sign_csr csr_template
sign_csr-IsIssued crypto l csr_pem = bind-Meets (or_fail _ (crypto.pem_decode csr_pem)) (λ block d.
    bind-Meets (wrap_err _ (crypto.parse_certificate_request block)) (λ csr p.
      bind-Meets (wrap_err _ (crypto.check_signature csr)) (λ u c.
        bind-Meets (wrap_err _ crypto.random_serial) (λ serial s.
          bind-Meets
            (wrap_err _ (
              crypto.create_certificate (csr_template crypto serial csr) l.ca_cert csr.public_key
                l.ca_key))
            (λ cert_der m. ok-Meets _ (record {
              csr = csr;
              block = block;
              template = csr_template crypto serial csr;
              cert_der = cert_der;
              decoded = or_fail_ok _ _ block d;
              parsed = wrap_ok _ _ csr p;
              checked = wrap_ok _ _ u c;
              made = wrap_ok _ _ cert_der m;
              encoded = refl;
              same_subject = refl;
              same_names = refl;
              same_addresses = refl;
              one_year_left = refl;
              servers_only = refl;
            }))))))

-- What an answer of Certificate says.
abbrev pub IsAnswer : Crypto → Loader → Bytes → Status → Type 0
IsAnswer crypto l csr (response r) = IsIssued crypto l csr r.crt × (r.ca ≡ l.ca_pem)
IsAnswer crypto l csr (invalid_argument text) = is_empty csr ≡ true
IsAnswer crypto l csr (internal e) = (is_empty csr ≡ false) × (sign_csr crypto l csr ≡ err e)

-- Every answer of Certificate: with a response go the authority's own certificate and one that the
-- authority has signed, from a request in the PEM block that was sent whose signature was checked,
-- with the key, the subject and the names of that request, for servers only and no longer than a
-- year; InvalidArgument is only for an empty request and Internal only for one that cannot be signed.
pub certificate-IsAnswer :
    (crypto : Crypto) (l : Loader) (csr : Bytes) → IsAnswer crypto l csr (certificate crypto l csr)
unfolding certificate
certificate-IsAnswer crypto l csr = elim (Bool-cases (is_empty csr)) [
  | inl e ↦ rw (e, certificate) e
  | inr e ↦
      elim (sign_csr crypto l csr)
          as (λ r. sign_csr crypto l csr ≡ r → IsAnswer crypto l csr (certificate crypto l csr)) [
            | err x ↦ λ q. rw (e, q, certificate) (e, q)
            | ok signed ↦ λ q.
                rw (e, q, certificate)
                  (meets (sign_csr crypto l csr) signed (sign_csr-IsIssued crypto l csr) q, refl)
          ]
        refl
]

-- A key of a kind that signs.
abbrev pub IsSigner : PrivateKey → Type 0
IsSigner (ecdsa key) = Unit
IsSigner (rsa key) = Unit
IsSigner (ed25519 key) = Unit
IsSigner (other key) = ⊥

parse_pkcs1-IsSigner : (crypto : Crypto) (der : Bytes) → Meets IsSigner (parse_pkcs1 crypto der)
unfolding parse_pkcs1
parse_pkcs1-IsSigner crypto der =
    elim (crypto.parse_pkcs1_private_key der)
        as (λ r. crypto.parse_pkcs1_private_key der ≡ r → Meets IsSigner (parse_pkcs1 crypto der)) [
          | ok key ↦ λ q. rw (q, parse_pkcs1) (ok-Meets _ tt)
          | err e ↦ λ q. rw (q, parse_pkcs1) (err-Meets _)
        ]
      refl

parse_private_key-IsSigner :
    (crypto : Crypto) (der : Bytes) → Meets IsSigner (parse_private_key crypto der)
unfolding parse_private_key
parse_private_key-IsSigner crypto der =
    let Goal : Type 0 = Meets IsSigner (parse_private_key crypto der) in
    let last = parse_pkcs1-IsSigner crypto der in
    elim (crypto.parse_ec_private_key der) as (λ r. crypto.parse_ec_private_key der ≡ r → Goal) [
      | ok key ↦ λ q. rw (q, parse_private_key) (ok-Meets _ tt)
      | err e ↦ λ q.
          elim (crypto.parse_pkcs8_private_key der)
              as (λ r. crypto.parse_pkcs8_private_key der ≡ r → Goal) [
                | ok (ecdsa key) ↦ λ p. rw (q, p, parse_private_key) (ok-Meets _ tt)
                | ok (rsa key) ↦ λ p. rw (q, p, parse_private_key) (ok-Meets _ tt)
                | ok (ed25519 key) ↦ λ p. rw (q, p, parse_private_key) (ok-Meets _ tt)
                | ok (other key) ↦ λ p. rw (q, p, parse_private_key) last
                | err x ↦ λ p. rw (q, p, parse_private_key) last
              ]
            refl
    ]
      refl

-- The loader goes with the bundle in its directory.
pub record IsLoaded (crypto : Crypto) (bundle_dir : Bytes) (l : Loader) : Type 0 where
  pub raw : Bytes
  pub bundle : Bundle
  pub block : Bytes
  pub read : crypto.read_file (bundle_dir ++ lit "/bundle") ≡ ok raw
  pub unmarshalled : crypto.unmarshal_bundle raw ≡ ok bundle
  pub same_pem : crypto.base64_decode bundle.crt ≡ ok l.ca_pem
  pub decoded : crypto.pem_decode l.ca_pem ≡ some block
  pub parsed : crypto.parse_certificate block ≡ ok l.ca_cert
  pub signs : IsSigner l.ca_key

new_loader-Meets :
    (crypto : Crypto) (bundle_dir : Bytes)
    → Meets (IsLoaded crypto bundle_dir) (new_loader crypto bundle_dir)
unfolding new_loader
new_loader-Meets crypto bundle_dir =
    bind-Meets (wrap_err _ (crypto.read_file (bundle_dir ++ lit "/bundle"))) (λ raw r.
      bind-Meets (wrap_err _ (crypto.unmarshal_bundle raw)) (λ b u.
        if_Meets (is_empty b.crt || is_empty b.key) _ (
          bind-Meets (wrap_err _ (crypto.base64_decode b.crt)) (λ pem p.
            bind-Meets (or_fail _ (crypto.pem_decode pem)) (λ block d.
              bind-Meets (wrap_err _ (crypto.parse_certificate block)) (λ cert c.
                bind-Meets (wrap_err _ (crypto.base64_decode b.key)) (λ key_raw _.
                  bind-Meets (or_fail _ (crypto.pem_decode key_raw)) (λ key_block _.
                    bind-Meets (wrap_err _ (parse_private_key crypto key_block)) (λ key k.
                      ok-Meets _ (record {
                        raw = raw;
                        bundle = b;
                        block = block;
                        read = wrap_ok _ _ raw r;
                        unmarshalled = wrap_ok _ _ b u;
                        same_pem = wrap_ok _ _ pem p;
                        decoded = or_fail_ok _ _ block d;
                        parsed = wrap_ok _ _ cert c;
                        signs =
                            meets (parse_private_key crypto key_block) key
                              (parse_private_key-IsSigner crypto key_block) (wrap_ok _ _ key k);
                      }))))))))))

-- Where NewLoader succeeds, the certificate that it hands out as PEM is the one of the bundle and
-- the one that it parsed, and its key is of one of the three kinds that sign.
pub new_loader-IsLoaded :
    (crypto : Crypto) (bundle_dir : Bytes) (l : Loader)
    → new_loader crypto bundle_dir ≡ ok l
    → IsLoaded crypto bundle_dir l
new_loader-IsLoaded crypto bundle_dir l h =
    meets (new_loader crypto bundle_dir) l (new_loader-Meets crypto bundle_dir) h
