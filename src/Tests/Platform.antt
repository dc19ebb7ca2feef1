-- ===== src/Tests/Platform.antt =====
-- Examples of the operator's sweep, of the CSR signer and of the provider-id setter.
use kubernetes_switchcloud.Base.{
  true, false, [], ◌∷◌, ◌++◌, some, lit, ◌≡◌, refl, All, bytes_eq, lookup, bytes_key, cut_byte,
}
use kubernetes_switchcloud.Cloud.Types.{Api, Error, ok, err, get_service}
use kubernetes_switchcloud.Cloud.Action.{◌>>=◌, try, request}
use kubernetes_switchcloud.Multicluster.Session.{new_session}
use kubernetes_switchcloud.Multicluster.Manager.{Manager, tenant_client}
use kubernetes_switchcloud.Operator.{sweep_round, service_exists}
use kubernetes_switchcloud.Operator.Safety.{
  RoundCall, sweep_round_calls, IsGone, service_exists-Gone,
}
use kubernetes_switchcloud.Signer.{ecdsa, Csr, Loader, Crypto, certificate}
use kubernetes_switchcloud.Signer.Issued.{IsAnswer, certificate-IsAnswer}
use kubernetes_switchcloud.Signer.Bootstrap.{Workload, ensure_bootstrap_token}
use kubernetes_switchcloud.Signer.Bootstrap.Kept.{IsMade, ensure_bootstrap_token-IsKept}
use kubernetes_switchcloud.ProviderId.{
  NovaMetadata, Node, NodePatch, instance_type_label, patch_for,
}
use kubernetes_switchcloud.ProviderId.Settled.{IsSettled, patch_for-apply_patch}
use kubernetes_switchcloud.Tests.World.{demo, shop, web_name, cloud}

abbrev fleet : Manager
fleet = record {
  sessions = (demo, new_session demo [] 0) ∷ [];
  running = new_session demo [] 0 ∷ [];
  passes = 1;
}

sweep_round_calls_example :
    All (RoundCall cloud (λ log. fleet)) (sweep_round cloud (λ log. fleet) []).1
sweep_round_calls_example = sweep_round_calls cloud (λ log. fleet)

abbrev missing : Error
missing = record { not_found = true; message = [] }

abbrev empty_cloud : Api
empty_cloud = record cloud { get_service = λ log t n s. err missing }

asked :
    service_exists empty_cloud (λ log. fleet) demo shop web_name []
    ≡ (ok false, get_service demo shop web_name ∷ [])
unfolding service_exists tenant_client lookup bytes_eq ◌>>=◌ try request
asked = refl

service_exists-Gone_example : IsGone empty_cloud (λ log. fleet) demo shop web_name
service_exists-Gone_example =
    service_exists-Gone empty_cloud (λ log. fleet) demo shop web_name
      ([], get_service demo shop web_name ∷ [], asked)

abbrev csr : Csr
csr = record { subject = demo; dns_names = demo ∷ []; ip_addresses = []; public_key = shop }

-- Codings that leave the bytes as they are, and a certificate that is its public key.
abbrev crypto : Crypto
crypto = record {
  read_file = λ path. ok path;
  unmarshal_bundle = λ raw. ok (record { crt = raw; key = raw });
  base64_decode = λ s. ok s;
  pem_decode = λ s. some s;
  pem_encode = λ kind s. s;
  parse_certificate = λ s. ok s;
  parse_ec_private_key = λ s. ok s;
  parse_pkcs8_private_key = λ s. ok (ecdsa s);
  parse_pkcs1_private_key = λ s. ok s;
  parse_certificate_request = λ s. ok csr;
  check_signature = λ c. ok tt;
  random_serial = ok [];
  now = 1000000;
  create_certificate = λ t parent key signer. ok key;
  generate_key = ok (demo, shop);
  marshal_pkcs8_private_key = λ key. ok key;
  x509_key_pair = λ cert key. ok cert;
}

abbrev loader : Loader
loader = record { ca_cert = demo; ca_key = ecdsa demo; ca_pem = demo }

certificate-IsAnswer_example : IsAnswer crypto loader web_name (certificate crypto loader web_name)
certificate-IsAnswer_example = certificate-IsAnswer crypto loader web_name

abbrev workload : Workload
workload = record {
  read_file = λ path. ok path;
  unmarshal_token = λ raw. ok (lit "abcdef.0123456789abcdef");
  build_config = λ path. ok path;
  new_client = λ cfg. ok tt;
  get_secret = λ name. err missing;
  create_secret = λ s. ok tt;
}

ensure_bootstrap_token-IsKept_example : IsMade workload [] []
unfolding ensure_bootstrap_token lit cut_byte
ensure_bootstrap_token-IsKept_example = ensure_bootstrap_token-IsKept workload [] [] refl

abbrev bare_node : Node
bare_node = record { labels = []; provider_id = [] }

abbrev metadata : NovaMetadata
metadata = record { uuid = demo; meta = (lit "instance-type", shop) ∷ [] }

abbrev first_patch : NodePatch
first_patch = record {
  labels = (lit "node.kubernetes.io/instance-type", shop) ∷ [];
  provider_id = lit "openstack:///" ++ demo;
}

patch_for-apply_patch_example : IsSettled metadata bare_node first_patch
unfolding patch_for bytes_eq lit lookup instance_type_label
patch_for-apply_patch_example = patch_for-apply_patch metadata bare_node first_patch refl
