-- ===== src/Tests/Sni.antt =====
-- Runs of the edge router's peeking and of its routing table, and the theorems at them.
use kubernetes_switchcloud.Base.{
  true, not, ◌&&◌, bytes_eq, if◌then◌else◌, bytes_key, ℕ, false, [], ◌∷◌, ◌++◌, none, some, lit,
  ◌≡◌, refl, is_empty, lookup,
}
use kubernetes_switchcloud.Openstack.SecurityGroup.{rule_key}
use kubernetes_switchcloud.Sniproxy.Peek.{
  Conn, closed, silent, sends, PeekConn, extract_sni, read_sni, peek_read, read_full, slice,
  byte_at, u16_at, scan_names, parse_sni_extension, scan_extensions, read_extensions,
  skip_compression, skip_cipher_suites, parse_hello_body, parse_handshake,
}
use kubernetes_switchcloud.Sniproxy.Peek.{ok as parsed}
use kubernetes_switchcloud.Sniproxy.Peek.Bounds.{crashes, extract_sni_safe}
use kubernetes_switchcloud.Sniproxy.Peek.Record.{Reads, read_sni-Reads}
use kubernetes_switchcloud.Sniproxy.Peek.Replay.{
  stream, peek_stream, peek_read-stream, read_sni-stream,
}
use kubernetes_switchcloud.Sniproxy.Peek.Hello.{client_hello, extract_sni-client_hello}
use kubernetes_switchcloud.Sniproxy.Router.{
  Backend, Router, address, backend, delete, or_none, owner_prefix, service_key, upsert,
}
use kubernetes_switchcloud.Sniproxy.Router.Table.{backend-delete, backend-upsert, wants}
use kubernetes_switchcloud.Sniproxy.Router.Table.Entries.{belongs, holds}
use kubernetes_switchcloud.Tests.World.{hello, demo, shop, web_name}

extract_sni-client_hello_example : extract_sni (client_hello hello) ≡ parsed demo
extract_sni-client_hello_example = extract_sni-client_hello hello refl

extract_sni_safe_example : crashes (extract_sni (22 ∷ 3 ∷ 1 ∷ 0 ∷ 2 ∷ 1 ∷ 0 ∷ [])) ≡ false
extract_sni_safe_example = extract_sni_safe (22 ∷ 3 ∷ 1 ∷ 0 ∷ 2 ∷ 1 ∷ 0 ∷ [])

abbrev conn : Conn
conn = sends (22 ∷ 3 ∷ []) (sends (1 ∷ 0 ∷ 2 ∷ 1 ∷ []) (sends (0 ∷ []) silent))

-- The client goes silent behind a whole record.
read_sni-Reads_example : Reads (read_sni conn) (stream conn) true
read_sni-Reads_example = read_sni-Reads conn

abbrev half_read : PeekConn
half_read = record { conn = sends (7 ∷ 8 ∷ []) closed; buf = 22 ∷ 3 ∷ 1 ∷ []; pos = 1 }

peek_read-stream_example :
    (peek_read 1 half_read).0 ++ peek_stream (peek_read 1 half_read).1 ≡ peek_stream half_read
peek_read-stream_example = peek_read-stream 1 half_read

abbrev hello_conn : Conn
hello_conn = sends (client_hello hello) (sends (23 ∷ []) closed)

abbrev hello_peeked : PeekConn
hello_peeked = record { conn = sends (23 ∷ []) closed; buf = client_hello hello; pos = 0 }

hello_conn-read : read_sni hello_conn ≡ parsed (demo, hello_peeked)
unfolding read_sni read_full slice byte_at u16_at scan_names parse_sni_extension scan_extensions
    read_extensions skip_compression skip_cipher_suites parse_hello_body parse_handshake extract_sni
hello_conn-read = refl

read_sni-stream_example : peek_stream hello_peeked ≡ stream hello_conn
read_sni-stream_example = read_sni-stream hello_conn demo hello_peeked hello_conn-read

abbrev apid : Backend
apid = record {
  namespace = demo;
  name = web_name;
  labels = (lit "talos.aenix.io/apid", lit "true") ∷ [];
  hostname = shop;
  ports = (lit "apid", 50000) ∷ [];
}

abbrev edge : Router
edge = record {
  backends = (lit "talos.aenix.io/apid", []) ∷ [];
  owned = [];
  port_by_label = (lit "talos.aenix.io/apid", lit "apid") ∷ [];
}

abbrev at_once : ℕ → ℕ
at_once k = 0

backend-upsert_example :
    backend (upsert at_once at_once apid edge) (lit "talos.aenix.io/apid") shop ≡ (
      if not (is_empty shop)
        && wants edge apid edge.backends (lit "talos.aenix.io/apid")
        && bytes_eq shop shop
      then some (address edge apid (lit "talos.aenix.io/apid"))
      else if holds
            (lit "talos.aenix.io/apid")
            shop
            (or_none (lookup (service_key apid) edge.owned))
          && belongs (owner_prefix apid) (backend edge (lit "talos.aenix.io/apid") shop)
      then none
      else backend edge (lit "talos.aenix.io/apid") shop)
backend-upsert_example =
    backend-upsert at_once at_once apid edge (lit "talos.aenix.io/apid") shop refl

abbrev owning : Router
owning = record edge {
  backends = (lit "talos.aenix.io/apid", (shop, owner_prefix apid ++ lit "50000") ∷ []) ∷ [];
  owned = (service_key apid, (lit "talos.aenix.io/apid", shop) ∷ []) ∷ [];
}

backend-delete_example : backend (delete at_once apid owning) (lit "talos.aenix.io/apid") shop ≡ (
    if holds (lit "talos.aenix.io/apid") shop (or_none (lookup (service_key apid) owning.owned))
      && belongs (owner_prefix apid) (backend owning (lit "talos.aenix.io/apid") shop)
    then none
    else backend owning (lit "talos.aenix.io/apid") shop)
backend-delete_example = backend-delete at_once apid owning (lit "talos.aenix.io/apid") shop
