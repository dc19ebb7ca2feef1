-- ===== src/Sniproxy/Peek/Hello.antt =====
-- peek.go: a ClientHello written out, and the parser on it.
pub mod Scan
use kubernetes_switchcloud.Base.{
  ℕ, zero, suc, ◌+◌, ◌-◌, ◌*◌, ◌/◌, ◌%◌, ◌≤◌, ◌<◌, ◌≡◌, ◌≢◌, refl, sym, ap, ◌∙◌, Bool, true, false,
  not, List, [], ◌∷◌, ◌++◌, append_assoc, append-nil, Bytes, length, take, drop, take-length,
  drop-length, length-append, ltb, leb, ◌==◌, if◌then◌else◌, Bool-cases, inl, inr, arith, All,
  subst,
}
use kubernetes_switchcloud.Sniproxy.Peek.{
  Parse, ok, fails, ◌>>=◌, byte_of, u16_of, byte_at, u16_at, slice, scan_names, parse_sni_extension,
  scan_extensions, read_extensions, skip_compression, skip_cipher_suites, parse_hello_body,
  parse_handshake, extract_sni,
}
use kubernetes_switchcloud.Sniproxy.Peek.Bounds.{length-drop}
use kubernetes_switchcloud.Sniproxy.Peek.Hello.Scan.{
  u16, At, At-skip, byte_at-At, u16_at-At, slice-At, extension, extensions, server_names, start,
  parse_sni_extension_finds, scan_extensions_finds,
}

-- A ClientHello: the version and the random bytes, the session, the cipher suites and the
-- compression methods, and the extensions with that of the server name among them.
pub record ClientHello : Type 0 where
  pub head : Bytes
  pub session : Bytes
  pub cipher_suites : Bytes
  pub compression : Bytes
  pub before : List (ℕ × Bytes)
  pub names_before : List (ℕ × Bytes)
  pub host : Bytes
  pub names_after : Bytes
  pub after : Bytes

module _ (h : ClientHello) where
  abbrev pub hello_extensions : Bytes
  hello_extensions =
      extensions h.before (extension 0 (server_names h.names_before h.host h.names_after) h.after)

  abbrev pub hello_tail : Bytes
  hello_tail = u16 (length hello_extensions) hello_extensions

  abbrev pub hello_compression : Bytes
  hello_compression = length h.compression ∷ (h.compression ++ hello_tail)

  abbrev pub hello_ciphers : Bytes
  hello_ciphers = u16 (length h.cipher_suites) (h.cipher_suites ++ hello_compression)

  abbrev pub hello_body : Bytes
  hello_body = h.head ++ (length h.session ∷ (h.session ++ hello_ciphers))

  -- The type 1 and the length, in three bytes.
  abbrev pub handshake : Bytes
  handshake = 1 ∷ (length hello_body / 65536) ∷ u16 (length hello_body % 65536) hello_body

  -- The type 22 of a handshake, the version 3.1 and the length.
  abbrev pub client_hello : Bytes
  client_hello = 22 ∷ 3 ∷ 1 ∷ u16 (length handshake) handshake

read_extensions_finds :
    (h : ClientHello) (s : Bytes) (pos : ℕ)
    → At s pos (hello_tail h)
    → read_extensions s pos ≡ ok h.host
unfolding read_extensions
read_extensions_finds h s pos a =
    let exts = hello_extensions h in
    let l = length exts in
    let c = At-skip (l / 256 ∷ l % 256 ∷ []) exts a in
    let v = parse_sni_extension_finds h.names_before h.host h.names_after in
    let value = server_names h.names_before h.host h.names_after in
    let found =
      scan_extensions_finds (suc (pos + 2 + l)) s (pos + 2) (pos + 2 + l) h.before value h.after
        h.host c (omega (arith, c.total)) (omega arith) v in
    ground (arith, found, c.total, u16_at-At l exts a)

skip_compression_finds :
    (h : ClientHello) (s : Bytes) (pos : ℕ)
    → At s pos (hello_compression h)
    → skip_compression s pos ≡ ok h.host
unfolding skip_compression
skip_compression_finds h s pos a =
    let b = At-skip (length h.compression ∷ []) (h.compression ++ hello_tail h) a in
    let c = At-skip h.compression (hello_tail h) b in
    let found = read_extensions_finds h s (pos + 1 + length h.compression) c in
    ground
      (arith, found, b.total, byte_at-At (length h.compression) (h.compression ++ hello_tail h) a)

skip_cipher_suites_finds :
    (h : ClientHello) (s : Bytes) (pos : ℕ)
    → At s pos (hello_ciphers h)
    → skip_cipher_suites s pos ≡ ok h.host
unfolding skip_cipher_suites
skip_cipher_suites_finds h s pos a =
    let l = length h.cipher_suites in
    let rest = h.cipher_suites ++ hello_compression h in
    let b = At-skip (l / 256 ∷ l % 256 ∷ []) rest a in
    let c = At-skip h.cipher_suites (hello_compression h) b in
    let found = skip_compression_finds h s (pos + 2 + l) c in
    ground (arith, found, b.total, u16_at-At l rest a)

parse_hello_body_finds :
    (h : ClientHello) → length h.head ≡ 34 → parse_hello_body (hello_body h) ≡ ok h.host
unfolding parse_hello_body
parse_hello_body_finds h k =
    let rest = h.session ++ hello_ciphers h in
    let l = length h.session in
    let body = hello_body h in
    let b = At-skip h.head (l ∷ rest) (start body) in
    let k' : 0 + length h.head ≡ 34 = omega (arith, k) in
    let b' = subst (λ n. At body n (l ∷ rest)) k' b in
    let c = At-skip (l ∷ []) rest b' in
    let d = At-skip h.session (hello_ciphers h) c in
    let found = skip_cipher_suites_finds h body (34 + 1 + l) d in
    ground (arith, found, c.total, byte_at-At l rest b')

slice_end : (s : Bytes) (pos : ℕ) (r : Bytes) → At s pos r → slice s pos (length s) ≡ ok r
slice_end s pos r a =
    let e : pos + length r ≡ length s = omega (arith, a.total) in
    let b = subst (λ x. At s pos x) (sym (append-nil r)) a in
    subst (λ n. slice s pos n ≡ ok r) e (slice-At r [] b)

parse_handshake_finds :
    (h : ClientHello) → length h.head ≡ 34 → parse_handshake (handshake h) ≡ ok h.host
unfolding parse_handshake
parse_handshake_finds h k =
    let body = hello_body h in
    let l = length body in
    let s = handshake h in
    let rest = (l / 65536) ∷ u16 (l % 65536) body in
    let b = At-skip (1 ∷ l / 65536 ∷ l % 65536 / 256 ∷ l % 65536 % 256 ∷ []) body (start s) in
    ground (
      arith,
      slice_end s 4 body b,
      parse_hello_body_finds h k,
      byte_at-At 1 rest (start s),
      b.total,
    )

-- Of a ClientHello that is written out, with 34 bytes of version and random, with any session,
-- cipher suites and compression methods, with any extensions of other types before that of the
-- server name and any bytes behind it, and with any names of other types before the host name,
-- extractSNI returns the host name.
pub extract_sni-client_hello :
    (h : ClientHello) → length h.head ≡ 34 → extract_sni (client_hello h) ≡ ok h.host
unfolding extract_sni
extract_sni-client_hello h k =
    let payload = handshake h in
    let l = length payload in
    let s = client_hello h in
    let b = At-skip (22 ∷ 3 ∷ 1 ∷ []) (u16 l payload) (start s) in
    let c = At-skip (22 ∷ 3 ∷ 1 ∷ l / 256 ∷ l % 256 ∷ []) payload (start s) in
    let e : 5 + l ≡ length s = omega (arith, c.total) in
    let cut = subst (λ n. slice s 5 n ≡ ok payload) (sym e) (slice_end s 5 payload c) in
    ground (
      arith,
      cut,
      parse_handshake_finds h k,
      byte_at-At 22 (3 ∷ 1 ∷ u16 l payload) (start s),
      u16_at-At l payload b,
      c.total,
    )
