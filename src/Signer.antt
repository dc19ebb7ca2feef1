-- ===== src/Signer.antt =====
-- talos-csr-signer: the certificate authority of internal/ca/loader.go and the gRPC method of
-- internal/server/server.go. Files, YAML, PEM and cryptography are library code.
pub mod Bootstrap
pub mod Issued
use kubernetes_switchcloud.Base.{
  ℕ, ◌+◌, ◌-◌, ◌*◌, Bool, true, false, not, ◌||◌, List, [], ◌∷◌, ◌++◌, Option, none, some, Bytes,
  lit, is_empty, if◌then◌else◌, String,
}
use kubernetes_switchcloud.Cloud.Types.{Error, Result, ok, err}
use kubernetes_switchcloud.Cloud.Action.{new_error, wrapped}

-- A private key: of one of the kinds that sign, or of another.
pub data PrivateKey : Type 0 where
  ecdsa : Bytes → PrivateKey
  rsa : Bytes → PrivateKey
  ed25519 : Bytes → PrivateKey
  other : Bytes → PrivateKey

-- The fields of a certificate request that are read.
pub record Csr : Type 0 where
  pub subject : Bytes
  pub dns_names : List Bytes
  pub ip_addresses : List Bytes
  pub public_key : Bytes

pub data KeyUsage : Type 0 where
  digital_signature : KeyUsage
  key_encipherment : KeyUsage

pub data ExtKeyUsage : Type 0 where
  server_auth : ExtKeyUsage

-- The fields of x509.Certificate that the templates set; IsCA is not set in any. Times in seconds.
pub record Template : Type 0 where
  pub serial_number : Bytes
  pub subject : Bytes
  pub dns_names : List Bytes
  pub ip_addresses : List Bytes
  pub not_before : ℕ
  pub not_after : ℕ
  pub key_usage : List KeyUsage
  pub ext_key_usage : List ExtKeyUsage

-- Loader
pub record Loader : Type 0 where
  pub ca_cert : Bytes
  pub ca_key : PrivateKey
  pub ca_pem : Bytes

-- The certificates of a bundle: certs.os.crt and certs.os.key.
pub record Bundle : Type 0 where
  pub crt : Bytes
  pub key : Bytes

-- What the libraries answer.
pub record Crypto : Type 0 where
  pub read_file : Bytes → Result Bytes
  pub unmarshal_bundle : Bytes → Result Bundle
  pub base64_decode : Bytes → Result Bytes
  pub pem_decode : Bytes → Option Bytes
  pub pem_encode : Bytes → Bytes → Bytes
  pub parse_certificate : Bytes → Result Bytes
  pub parse_ec_private_key : Bytes → Result Bytes
  pub parse_pkcs8_private_key : Bytes → Result PrivateKey
  pub parse_pkcs1_private_key : Bytes → Result Bytes
  pub parse_certificate_request : Bytes → Result Csr
  pub check_signature : Csr → Result (Unit {0})
  pub random_serial : Result Bytes
  pub now : ℕ
  -- Of a template, the certificate of the parent, a public key and the parent's private key.
  pub create_certificate : Template → Bytes → Bytes → PrivateKey → Result Bytes
  -- A private key and its public one.
  pub generate_key : Result (Bytes × Bytes)
  pub marshal_pkcs8_private_key : Bytes → Result Bytes
  pub x509_key_pair : Bytes → Bytes → Result Bytes

-- if block == nil { return err }
abbrev pub or_fail : {A : Type 0} → Bytes → Option A → Result A
or_fail text none = err (new_error text)
or_fail text (some a) = ok a

-- fmt.Errorf with %w
abbrev pub wrap_err : {A : Type 0} → Bytes → Result A → Result A
wrap_err text (ok a) = ok a
wrap_err text (err e) = err (wrapped text e)

infixl 5 ◌>>=◌
abbrev pub ◌>>=◌ : {A B : Type 0} → Result A → (A → Result B) → Result B
ok a >>= f = f a
err e >>= f = err e

-- A minute, and 8760 hours.
abbrev pub minute : ℕ
minute = 60

abbrev pub one_year : ℕ
one_year = 31536000

module _ (crypto : Crypto) where
  -- The end of parsePrivateKey.
  unfoldable pub parse_pkcs1 : Bytes → Result PrivateKey
  parse_pkcs1 der = elim (crypto.parse_pkcs1_private_key der) [
    | ok key ↦ ok (rsa key)
    | err e ↦ err (new_error (lit "unsupported private key type"))
  ]

  -- parsePrivateKey
  unfoldable pub parse_private_key : Bytes → Result PrivateKey
  unfolding parse_pkcs1
  parse_private_key der = elim (crypto.parse_ec_private_key der) [
    | ok key ↦ ok (ecdsa key)
    | err e ↦ elim (crypto.parse_pkcs8_private_key der) [
      | ok (ecdsa key) ↦ ok (ecdsa key)
      | ok (rsa key) ↦ ok (rsa key)
      | ok (ed25519 key) ↦ ok (ed25519 key)
      | ok (other key) ↦ parse_pkcs1 der
      | err e ↦ parse_pkcs1 der
    ]
  ]

  -- NewLoader
  unfoldable pub new_loader : Bytes → Result Loader
  unfolding parse_private_key
  new_loader bundle_dir = do
    raw ← wrap_err (lit "read bundle") (crypto.read_file (bundle_dir ++ lit "/bundle"))
    b ← wrap_err (lit "parse bundle") (crypto.unmarshal_bundle raw)
    if is_empty b.crt || is_empty b.key
        then err (new_error (lit "bundle missing certs.os.crt or certs.os.key"))
        else do
          ca_pem ← wrap_err (lit "base64-decode CA cert") (crypto.base64_decode b.crt)
          block ← or_fail (lit "failed to decode CA PEM") (crypto.pem_decode ca_pem)
          ca_cert ← wrap_err (lit "parse CA cert") (crypto.parse_certificate block)
          ca_key_raw ← wrap_err (lit "base64-decode CA key") (crypto.base64_decode b.key)
          key_block ← or_fail (lit "failed to decode CA key PEM") (crypto.pem_decode ca_key_raw)
          ca_key ← wrap_err (lit "parse CA key") (parse_private_key key_block)
          ok (record { ca_cert = ca_cert; ca_key = ca_key; ca_pem = ca_pem })

  -- The template of SignCSR.
  unfoldable pub csr_template : Bytes → Csr → Template
  csr_template serial csr = record {
    serial_number = serial;
    subject = csr.subject;
    dns_names = csr.dns_names;
    ip_addresses = csr.ip_addresses;
    not_before = crypto.now - minute;
    not_after = crypto.now + one_year;
    key_usage = digital_signature ∷ key_encipherment ∷ [];
    ext_key_usage = server_auth ∷ [];
  }

  -- SignCSR
  unfoldable pub sign_csr : Loader → Bytes → Result Bytes
  unfolding csr_template
  sign_csr l csr_pem = do
    block ← or_fail (lit "failed to decode CSR PEM") (crypto.pem_decode csr_pem)
    csr ← wrap_err (lit "parse CSR") (crypto.parse_certificate_request block)
    wrap_err (lit "invalid CSR signature") (crypto.check_signature csr) >>= λ _. do
      serial ← wrap_err (lit "generate serial") crypto.random_serial
      cert_der ←
          wrap_err (lit "sign certificate")
            (crypto.create_certificate (csr_template serial csr) l.ca_cert csr.public_key l.ca_key)
      ok (crypto.pem_encode (lit "CERTIFICATE") cert_der)

  -- The template of TLSCredentials.
  unfoldable pub server_template : Bytes → Bytes → Template
  server_template serial cluster_hostname = record {
    serial_number = serial;
    subject = lit "O=talos";
    dns_names = if not (is_empty cluster_hostname) then cluster_hostname ∷ [] else [];
    ip_addresses = [];
    not_before = crypto.now - minute;
    not_after = crypto.now + one_year;
    key_usage = digital_signature ∷ [];
    ext_key_usage = server_auth ∷ [];
  }

  -- TLSCredentials: the server's certificate, and the certificates of the pool.
  unfoldable pub tls_credentials : Loader → Bytes → Result (Bytes × List Bytes)
  unfolding server_template
  tls_credentials l cluster_hostname = do
    key ← wrap_err (lit "generate server key") crypto.generate_key
    serial ← wrap_err (lit "generate serial") crypto.random_serial
    cert_der ← wrap_err (lit "sign server cert") (
        crypto.create_certificate (server_template serial cluster_hostname) l.ca_cert key.1
          l.ca_key)
    key_bytes ← crypto.marshal_pkcs8_private_key key.0
    tls_cert ←
        crypto.x509_key_pair (crypto.pem_encode (lit "CERTIFICATE") cert_der)
          (crypto.pem_encode (lit "PRIVATE KEY") key_bytes)
    ok (tls_cert, l.ca_cert ∷ [])

-- The answer of the gRPC method: a response, or a status with its code.
pub record CertificateResponse : Type 0 where
  pub ca : Bytes
  pub crt : Bytes

pub data Status : Type 0 where
  response : CertificateResponse → Status
  invalid_argument : Bytes → Status
  internal : Error → Status

-- Certificate; the peer is only logged.
unfoldable pub certificate : Crypto → Loader → Bytes → Status
unfolding sign_csr
certificate crypto l csr =
    if is_empty csr then invalid_argument (lit "empty CSR") else elim (sign_csr crypto l csr) [
      | err e ↦ internal e
      | ok signed ↦ response (record { ca = l.ca_pem; crt = signed })
    ]
