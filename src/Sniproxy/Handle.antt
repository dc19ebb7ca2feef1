-- ===== src/Sniproxy/Handle.antt =====
-- router.go: what Handle does with one connection.
pub mod Copying
pub mod Forwards
use kubernetes_switchcloud.Base.{
  ℕ, zero, suc, ◌+◌, take, Bool, true, false, List, [], ◌∷◌, ◌++◌, Option, none, some, Bytes,
  length, ltb, if◌then◌else◌,
}
use kubernetes_switchcloud.Sniproxy.Peek.{
  ok, fails, panic, stuck, blocked, Conn, closed, silent, sends, PeekConn, peek_read, read_sni,
}
use kubernetes_switchcloud.Sniproxy.Router.{Router, backend}

-- Nothing more comes.
abbrev pub is_over : Conn → Bool
is_over closed = true
is_over silent = true
is_over (sends piece conn) = false

-- The next Read will return io.EOF, or will not return.
abbrev pub at_end : PeekConn → Bool
at_end c = if ltb c.pos (length c.buf) then false else is_over c.conn

-- The buffer of io.Copy.
abbrev pub copy_buffer : ℕ
copy_buffer = 32768

-- A connection to a backend: how many bytes of a chunk its Write takes before an error, behind the
-- given number of bytes.
abbrev pub Upstream : Type 0
Upstream = ℕ → Bytes → ℕ

-- io.Copy(upstream, peekConn): what is written until the client closes the connection, goes silent
-- for good, or a Write fails; on fuel, none where it runs out.
unfoldable pub copy_upstream : Upstream → ℕ → ℕ → PeekConn → Option Bytes
copy_upstream write written zero c = none
copy_upstream write written (suc fuel) c =
    let (chunk, c') = peek_read copy_buffer c in
    let taken = write written chunk in
    let rest = copy_upstream write (written + length chunk) fuel c' in
    if at_end c
    then some []
    else if ltb taken (length chunk)
    then some (take taken chunk)
    else elim rest [ none ↦ none | some bytes ↦ some (chunk ++ bytes) ]

-- What Handle comes to: no server name, no backend for it, a backend that cannot be dialled, or a
-- backend and the bytes of the client that it was sent. It waits for ever for a client that goes
-- silent before its name has come. A read out of bounds would be a crash.
pub data Handled : Type 0 where
  no_sni : Handled
  waits : Handled
  no_backend : Bytes → Handled
  dial_failed : Bytes → Handled
  proxied : Bytes → Option Bytes → Handled
  crashed : Handled

-- Handle, where `dial` gives the connection to a backend, if it can be dialled, on fuel for the
-- copying.
unfoldable pub handle : Router → (Bytes → Option Upstream) → ℕ → Bytes → Conn → Handled
unfolding copy_upstream
handle r dial fuel label conn = elim (read_sni conn) [
  | fails e ↦ no_sni
  | blocked ↦ waits
  | panic ↦ crashed
  | stuck ↦ crashed
  | ok (sni, peek_conn) ↦ elim (backend r label sni) [
    | none ↦ no_backend sni
    | some b ↦ elim (dial b) [
      | none ↦ dial_failed b
      | some upstream ↦ proxied b (copy_upstream upstream 0 fuel peek_conn)
    ]
  ]
]
