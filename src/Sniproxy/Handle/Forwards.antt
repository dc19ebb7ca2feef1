-- ===== src/Sniproxy/Handle/Forwards.antt =====
-- router.go and peek.go together: which backend Handle dials, and what it sends there.
use kubernetes_switchcloud.Base.{
  ℕ, ◌≤◌, ◌<◌, true, [], ◌∷◌, ◌++◌, Option, none, some, Bytes, length, length-append, ◌≡◌, refl,
  ◌∙◌, ap, ◌/◌, ◌%◌, arith,
}
use kubernetes_switchcloud.Sniproxy.Peek.{
  ok, Conn, falls_silent, PeekConn, read_sni, u16_at, extract_sni,
}
use kubernetes_switchcloud.Sniproxy.Peek.Replay.{stream, read_full-stream, read_sni-stream}
use kubernetes_switchcloud.Sniproxy.Peek.Record.{record_name, is_incomplete, read_full_enough}
use kubernetes_switchcloud.Sniproxy.Peek.Hello.{
  ClientHello, client_hello, handshake, extract_sni-client_hello,
}
use kubernetes_switchcloud.Sniproxy.Router.{Router, backend}
use kubernetes_switchcloud.Sniproxy.Handle.{
  Upstream, Handled, waits, no_sni, no_backend, dial_failed, proxied, crashed, handle,
}
use kubernetes_switchcloud.Sniproxy.Handle.Copying.{
  pieces, TakesAll, IsStart, copy_upstream-all, read_sni-work,
}

-- What holds of a connection that Handle has come to this with.
abbrev pub IsSound : Router → (Bytes → Option Upstream) → Bytes → Conn → Handled → Type 0
IsSound r dial label conn no_sni = record_name (stream conn) ≡ none
IsSound r dial label conn waits = (falls_silent conn ≡ true) × (is_incomplete (stream conn) ≡ true)
IsSound r dial label conn (no_backend sni) =
    (record_name (stream conn) ≡ some sni) × (backend r label sni ≡ none)
IsSound r dial label conn (dial_failed b) =
    (sni : Bytes) × (record_name (stream conn) ≡ some sni)
    × (backend r label sni ≡ some b)
    × (dial b ≡ none)
IsSound r dial label conn (proxied b out) =
    (sni : Bytes) × (record_name (stream conn) ≡ some sni)
    × (backend r label sni ≡ some b)
    × (upstream : Upstream) × (dial b ≡ some upstream)
    × IsStart upstream out (stream conn)
IsSound r dial label conn crashed = ⊥

-- Two lists with the same whole and parts of the same length have the same parts.
same_parts : (a b c d : Bytes) → a ++ b ≡ c ++ d → length a ≡ length c → (a ≡ c) × (b ≡ d)
same_parts [] b [] d e l = (refl, e)
same_parts [] b (y ∷ c) d e l = absurd (omega arith)
same_parts (x ∷ a) b [] d e l = absurd (omega arith)
same_parts (x ∷ a) b (y ∷ c) d e l = ground (arith, e, l, same_parts a b c d)

-- A ClientHello that arrives in any pieces, with anything behind it.
read_sni-client_hello :
    (h : ClientHello) (conn : Conn) (rest : Bytes)
    → length h.head ≡ 34
    → length (handshake h) ≤ 4096
    → stream conn ≡ client_hello h ++ rest
    → (c : PeekConn) × (read_sni conn ≡ ok (h.host, c))
unfolding read_sni u16_at
read_sni-client_hello h conn rest k small s =
    let payload = handshake h in
    let l = length payload in
    let header = 22 ∷ 3 ∷ 1 ∷ l / 256 ∷ l % 256 ∷ [] in
    let (hd, conn', e) =
      read_full_enough 5 conn (rw s (omega (arith, length-append (client_hello h) rest))) in
    let (t, n) = read_full-stream 5 conn hd conn' e in
    let parts = same_parts hd (stream conn') header (payload ++ rest) (t ∙ s) n in
    let (pl, conn'', f) =
      read_full_enough l conn' (rw parts.1 (omega (arith, length-append payload rest))) in
    let (t', n') = read_full-stream l conn' pl conn'' f in
    let parts' = same_parts pl (stream conn'') payload rest (t' ∙ parts.1) n' in
    let size : u16_at hd 3 ≡ ok l = rw parts.0 (ap ok (omega arith)) in
    let found : extract_sni (hd ++ pl) ≡ ok h.host =
      rw (parts.0, parts'.0) (extract_sni-client_hello h k) in
    (record { conn = conn''; buf = hd ++ pl; pos = 0 }, ground (arith, e, size, small, f, found))

-- Where a client sends a ClientHello of at most 4096 bytes for a host name, in any pieces and with
-- anything behind it, and the table has a backend for that name that can be dialled and takes all
-- that it is written, Handle sends the backend the ClientHello and all that follows it.
pub handle-client_hello :
    (r : Router) (dial : Bytes → Option Upstream) (fuel : ℕ) (label : Bytes)
    → (h : ClientHello) (conn : Conn) (rest b : Bytes) (upstream : Upstream) → length h.head ≡ 34
    → length (handshake h) ≤ 4096
    → stream conn ≡ client_hello h ++ rest
    → backend r label h.host ≡ some b
    → dial b ≡ some upstream
    → TakesAll upstream
    → pieces conn < fuel
    → handle r dial fuel label conn ≡ proxied b (some (client_hello h ++ rest))
unfolding handle
handle-client_hello r dial fuel label h conn rest b upstream k small s e d t enough =
    let (c, q) = read_sni-client_hello h conn rest k small s in
    let copied =
      copy_upstream-all upstream 0 fuel c t (omega (arith, read_sni-work conn h.host c q)) in
    rw (q, handle)
      (rw (e, d, copied, read_sni-stream conn h.host c q) (ap (λ x. proxied b (some x)) s))
