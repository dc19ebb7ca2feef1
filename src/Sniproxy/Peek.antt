-- ===== src/Sniproxy/Peek.antt =====
-- peek.go: the server name in a TLS ClientHello, read from a connection without using it up.
-- Reads of a slice are checked: a read out of bounds would be a panic. A connection is what
-- its Read will deliver, piece by piece, until the client closes it or goes silent.
pub mod Bounds
pub mod Replay
pub mod Record
pub mod Hello
use kubernetes_switchcloud.Base.{
  ℕ, zero, suc, ◌+◌, ◌-◌, ◌*◌, ◌≤◌, Bool, true, false, not, List, [], ◌∷◌, ◌++◌, Option, none, some,
  Bytes, length, take, drop, ltb, leb, ◌==◌, if◌then◌else◌,
}

pub data SniError : Type 0 where
  short_record_header not_handshake incomplete_record short_handshake not_client_hello : SniError
  short_body truncated_cipher_suites truncated_compression no_extensions : SniError
  extensions_exceed_body no_sni_extension short_sni_extension truncated_sni_list : SniError
  no_hostname_entry : SniError
  read_header record_too_large read_payload : SniError

-- `panic` is a read out of bounds, `stuck` a loop that has used up its fuel, `blocked` a Read that
-- never returns: there is no deadline.
pub data Parse (A : Type 0) : Type 0 where
  ok : A → Parse A
  fails : SniError → Parse A
  panic : Parse A
  stuck : Parse A
  blocked : Parse A

infixl 5 ◌>>=◌
abbrev pub ◌>>=◌ : {A B : Type 0} → Parse A → (A → Parse B) → Parse B
ok a >>= f = f a
fails e >>= f = fails e
panic >>= f = panic
stuck >>= f = stuck
blocked >>= f = blocked

abbrev pub byte_of : Bytes → Parse ℕ
byte_of [] = panic
byte_of (b ∷ bs) = ok b

-- s[i]
unfoldable pub byte_at : Bytes → ℕ → Parse ℕ
byte_at s i = byte_of (drop i s)

abbrev pub u16_of : Bytes → Parse ℕ
u16_of [] = panic
u16_of (a ∷ []) = panic
u16_of (a ∷ b ∷ bs) = ok (256 * a + b)

-- binary.BigEndian.Uint16(s[i : i+2])
unfoldable pub u16_at : Bytes → ℕ → Parse ℕ
u16_at s i = u16_of (drop i s)

-- s[lo:hi]
unfoldable pub slice : Bytes → ℕ → ℕ → Parse Bytes
slice s lo hi =
    if leb lo hi
    then (if leb hi (length s) then ok (take (hi - lo) (drop lo s)) else panic)
    else panic

abbrev pub max_client_hello_size : ℕ
max_client_hello_size = 4096

-- The loop of parseSNIExtension.
unfoldable pub scan_names : ℕ → Bytes → ℕ → ℕ → Parse Bytes
scan_names zero s pos end = stuck
scan_names (suc fuel) s pos end =
    let body = (do
      name_type ← byte_at s pos
      name_len ← u16_at s (pos + 1)
      if ltb end (pos + 3 + name_len)
          then fails no_hostname_entry
          else if name_type == 0x00
          then slice s (pos + 3) (pos + 3 + name_len)
          else scan_names fuel s (pos + 3 + name_len) end) in
    if leb (pos + 3) end then body else fails no_hostname_entry

-- parseSNIExtension
unfoldable pub parse_sni_extension : Bytes → Parse Bytes
parse_sni_extension s = if ltb (length s) 2 then fails short_sni_extension else do
  list_len ← u16_at s 0
  if ltb (length s) (2 + list_len)
      then fails truncated_sni_list
      else scan_names (suc (2 + list_len)) s 2 (2 + list_len)

-- The loop of extractSNI over the extensions.
unfoldable pub scan_extensions : ℕ → Bytes → ℕ → ℕ → Parse Bytes
scan_extensions zero body pos ext_end = stuck
scan_extensions (suc fuel) body pos ext_end =
    let round = (do
      ext_type ← u16_at body pos
      ext_data_len ← u16_at body (pos + 2)
      if ltb ext_end (pos + 4 + ext_data_len)
          then fails no_sni_extension
          else if ext_type == 0x0000
          then slice body (pos + 4) (pos + 4 + ext_data_len) >>= parse_sni_extension
          else scan_extensions fuel body (pos + 4 + ext_data_len) ext_end) in
    if leb (pos + 4) ext_end then round else fails no_sni_extension

-- The end of extractSNI: the extensions, whose length stands at `pos`.
unfoldable pub read_extensions : Bytes → ℕ → Parse Bytes
read_extensions body pos = if ltb (length body) (pos + 2) then fails no_extensions else do
  ext_len ← u16_at body pos
  if ltb (length body) (pos + 2 + ext_len)
      then fails extensions_exceed_body
      else scan_extensions (suc (pos + 2 + ext_len)) body (pos + 2) (pos + 2 + ext_len)

unfoldable pub skip_compression : Bytes → ℕ → Parse Bytes
skip_compression body pos =
    if ltb (length body) (pos + 1)
    then fails truncated_compression
    else do compression_len ← byte_at body pos; read_extensions body (pos + 1 + compression_len)

unfoldable pub skip_cipher_suites : Bytes → ℕ → Parse Bytes
skip_cipher_suites body pos =
    if ltb (length body) (pos + 2)
    then fails truncated_cipher_suites
    else do cipher_suites_len ← u16_at body pos; skip_compression body (pos + 2 + cipher_suites_len)

-- The body of a ClientHello: 2 + 32 bytes are skipped, then the session identifier.
unfoldable pub parse_hello_body : Bytes → Parse Bytes
parse_hello_body body =
    if ltb (length body) 35
    then fails short_body
    else do session_id_len ← byte_at body 34; skip_cipher_suites body (34 + 1 + session_id_len)

unfoldable pub parse_handshake : Bytes → Parse Bytes
parse_handshake payload = if ltb (length payload) 4 then fails short_handshake else do
  type ← byte_at payload 0
  if not (type == 0x01)
      then fails not_client_hello
      else slice payload 4 (length payload) >>= parse_hello_body

-- extractSNI
unfoldable pub extract_sni : Bytes → Parse Bytes
extract_sni s = if ltb (length s) 5 then fails short_record_header else do
  type ← byte_at s 0
  if not (type == 0x16) then fails not_handshake else do
    record_len ← u16_at s 3
    if ltb (length s) (5 + record_len)
        then fails incomplete_record
        else slice s 5 (5 + record_len) >>= parse_handshake

-- A connection, by what its Read delivers, piece by piece. On a `closed` one Read returns io.EOF, on
-- a `silent` one it never returns.
pub data Conn : Type 0 where
  closed : Conn
  silent : Conn
  sends : Bytes → Conn → Conn

-- Does the client go silent behind all that it sends?
abbrev pub falls_silent : Conn → Bool
falls_silent closed = false
falls_silent silent = true
falls_silent (sends piece conn) = falls_silent conn

-- Go puts what does not fit the reader's buffer off to the next Read.
abbrev pub pending : Bytes → Conn → Conn
pending [] conn = conn
pending (b ∷ bs) conn = sends (b ∷ bs) conn

-- io.ReadFull(conn, make([]byte, n)): none where no n bytes come.
unfoldable pub read_full : ℕ → Conn → Option (Bytes × Conn)
read_full zero conn = some ([], conn)
read_full (suc n) closed = none
read_full (suc n) silent = none
read_full (suc n) (sends piece conn) =
    if ltb (length piece) (suc n)
    then elim (read_full (suc n - length piece) conn) [
      | none ↦ none
      | some (rest, conn') ↦ some (piece ++ rest, conn')
    ]
    else some (take (suc n) piece, pending (drop (suc n) piece) conn)

-- PeekConn: `pos` bytes of `buf` have been read again.
pub record PeekConn : Type 0 where
  pub conn : Conn
  pub buf : Bytes
  pub pos : ℕ

-- Read of the wrapped connection, into a buffer of n bytes: nothing on one that is closed, where it
-- returns io.EOF, and on one that is silent, where it does not return.
unfoldable pub conn_read : ℕ → Conn → Bytes × Conn
conn_read n closed = ([], closed)
conn_read n silent = ([], silent)
conn_read n (sends piece conn) = (take n piece, pending (drop n piece) conn)

-- PeekConn.Read, into a buffer of n bytes
unfoldable pub peek_read : ℕ → PeekConn → Bytes × PeekConn
peek_read n c =
    if ltb c.pos (length c.buf)
    then (let chunk = take n (drop c.pos c.buf) in (chunk, record c { pos = c.pos + length chunk }))
    else (let (chunk, conn) = conn_read n c.conn in (chunk, record c { conn = conn }))

-- io.ReadFull where no n bytes come: an error at the end, and no return from a client that is silent.
abbrev pub cut_off : {A : Type 0} → SniError → Conn → Parse A
cut_off e conn = if falls_silent conn then blocked else fails e

-- ReadSNI
unfoldable pub read_sni : Conn → Parse (Bytes × PeekConn)
read_sni conn = elim (read_full 5 conn) [
  | none ↦ cut_off read_header conn
  | some (header, conn') ↦ do
    record_len ← u16_at header 3
    if ltb max_client_hello_size record_len
        then fails record_too_large
        else elim (read_full record_len conn') [
          | none ↦ cut_off read_payload conn'
          | some (payload, conn'') ↦ do
            sni ← extract_sni (header ++ payload)
            ok (sni, record { conn = conn''; buf = header ++ payload; pos = 0 })
        ]
]
