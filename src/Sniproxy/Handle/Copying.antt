-- ===== src/Sniproxy/Handle/Copying.antt =====
-- router.go and peek.go: what the copying to a backend writes, and when it ends.
use kubernetes_switchcloud.Base.{
  ℕ, zero, suc, ◌+◌, ◌-◌, ◌≤◌, ◌<◌, true, [], ◌∷◌, some, Bytes, length, take, drop, length-append,
  ltb, ◌≡◌, refl, ap, Bool-cases, Option-cases, inl, inr, arith, ltb→lt, ltb→le, sym, ◌∙◌, ◌++◌,
  append_assoc, ◌⊎◌, take-append-drop, Option, false,
}
use kubernetes_switchcloud.Sniproxy.Peek.{
  ok, Conn, closed, silent, sends, pending, read_full, conn_read, PeekConn, peek_read, read_sni,
}
use kubernetes_switchcloud.Sniproxy.Peek.Bounds.{length-drop, length-take, u16_at_ok}
use kubernetes_switchcloud.Sniproxy.Peek.Replay.{
  stream, peek_stream, read_full-stream, peek_read-stream,
}
use kubernetes_switchcloud.Sniproxy.Handle.{Upstream, is_over, at_end, copy_buffer, copy_upstream}

-- What there is left to read: bytes and pieces.
abbrev pub pieces : Conn → ℕ
pieces closed = 0
pieces silent = 0
pieces (sends piece conn) = suc (length piece + pieces conn)

unfoldable pub work : PeekConn → ℕ
work c = length c.buf - c.pos + pieces c.conn

pieces-pending :
    (bs : Bytes) (conn : Conn) → pieces (pending bs conn) ≤ suc (length bs + pieces conn)
pieces-pending [] conn = omega arith
pieces-pending (b ∷ bs) conn = omega arith

conn_read_works :
    (n : ℕ) (conn : Conn) → is_over conn ≡ false → pieces (conn_read (suc n) conn).1 < pieces conn
unfolding conn_read
conn_read_works n closed h = absurd (cc h)
conn_read_works n silent h = absurd (cc h)
conn_read_works n (sends [] conn) h = omega arith
conn_read_works n (sends (b ∷ bs) conn) h =
    let shorter = length-drop n bs in omega (arith, shorter, pieces-pending (drop n bs) conn)

take_some : (n : ℕ) (xs : Bytes) → 1 ≤ length xs → 1 ≤ length (take (suc n) xs)
take_some n [] h = h
take_some n (x ∷ xs) h = omega arith

peek_read_works : (n : ℕ) (c : PeekConn) → at_end c ≡ false → work (peek_read (suc n) c).1 < work c
unfolding peek_read work
peek_read_works n c h = elim (Bool-cases (ltb c.pos (length c.buf))) [
  | inl e ↦
      let taken = length-take (suc n) (drop c.pos c.buf) in
      let left = length-drop c.pos c.buf in
      rw e (omega (arith, left, ltb→lt c.pos (length c.buf) e, take_some n (drop c.pos c.buf)))
  | inr e ↦ rw e (omega (arith, conn_read_works n c.conn (rw e at h)))
]

nil_of_length : (xs : Bytes) → length xs ≡ 0 → xs ≡ []
nil_of_length [] h = refl
nil_of_length (x ∷ xs) h = absurd (omega arith)

stream_closed : (conn : Conn) → is_over conn ≡ true → stream conn ≡ []
stream_closed closed h = refl
stream_closed silent h = refl
stream_closed (sends piece conn) h = absurd (cc h)

stream_at_end : (c : PeekConn) → at_end c ≡ true → peek_stream c ≡ []
unfolding peek_stream
stream_at_end c h = elim (Bool-cases (ltb c.pos (length c.buf))) [
  | inl e ↦ absurd (cc (rw e at h))
  | inr e ↦
      let closed : is_over c.conn ≡ true = rw e at h in
      let past : drop c.pos c.buf ≡ [] =
        nil_of_length (drop c.pos c.buf)
          (omega (arith, length-drop c.pos c.buf, ltb→le c.pos (length c.buf) e)) in
      rw past (stream_closed c.conn closed)
]

-- Every Write takes all that it is given.
abbrev pub TakesAll : Upstream → Type 0
TakesAll write = (written : ℕ) (chunk : Bytes) → ltb (write written chunk) (length chunk) ≡ false

-- Enough fuel for the copying: one more than what there is left to read.
pub copy_upstream-all :
    (write : Upstream) (written fuel : ℕ) (c : PeekConn)
    → TakesAll write
    → work c < fuel
    → copy_upstream write written fuel c ≡ some (peek_stream c)
unfolding copy_upstream
copy_upstream-all write written zero c t h = absurd (omega arith)
copy_upstream-all write written (suc fuel) c t h = elim (Bool-cases (at_end c)) [
  | inl e ↦ rw e (rw (stream_at_end c e) refl)
  | inr e ↦
      let less = peek_read_works 32767 c e in
      let chunk = (peek_read copy_buffer c).0 in
      let rest =
        copy_upstream-all write (written + length chunk) fuel (peek_read copy_buffer c).1 t
          (omega (arith, less)) in
      rw (e, t written chunk, rest) (ap some (peek_read-stream copy_buffer c))
]

-- Some Write takes less than it is given.
abbrev pub Fails : Upstream → Type 0
Fails write = (written : ℕ) × (chunk : Bytes) × (ltb (write written chunk) (length chunk) ≡ true)

-- What is written where a Write may fail: the copying ends, with all the bytes of the client, or
-- with the first of them and a failed Write.
abbrev pub IsStart : Upstream → Option Bytes → Bytes → Type 0
IsStart write out whole =
    (sent : Bytes) × (rest : Bytes) × (out ≡ some sent)
    × (sent ++ rest ≡ whole)
    × ((rest ≡ []) ⊎ Fails write)

pub copy_upstream-IsStart :
    (write : Upstream) (written fuel : ℕ) (c : PeekConn)
    → work c < fuel
    → IsStart write (copy_upstream write written fuel c) (peek_stream c)
unfolding copy_upstream
copy_upstream-IsStart write written zero c h = absurd (omega arith)
copy_upstream-IsStart write written (suc fuel) c h = elim (Bool-cases (at_end c)) [
  | inl e ↦ rw e ([], peek_stream c, refl, refl, inl (stream_at_end c e))
  | inr e ↦
      let less = peek_read_works 32767 c e in
      let chunk = (peek_read copy_buffer c).0 in
      let after = (peek_read copy_buffer c).1 in
      let taken = write written chunk in
      let whole = peek_read-stream copy_buffer c in
      elim (Bool-cases (ltb taken (length chunk))) [
        | inl f ↦
            rw (e, f)
              (
                take taken chunk,
                drop taken chunk ++ peek_stream after,
                refl,
                sym (append_assoc (take taken chunk) (drop taken chunk) (peek_stream after))
                    ∙ (ap (λ x. x ++ peek_stream after) (take-append-drop taken chunk) ∙ whole),
                inr (written, chunk, f),
              )
        | inr f ↦
            let (sent, rest, q, s, end) =
              copy_upstream-IsStart write (written + length chunk) fuel after
                (omega (arith, less)) in
            rw (e, f, q)
              (
                chunk ++ sent,
                rest,
                refl,
                append_assoc chunk sent rest ∙ (ap (◌++◌ chunk) s ∙ whole),
                end,
              )
      ]
]

read_full-pieces :
    (n : ℕ) (conn : Conn) (bs : Bytes) (conn' : Conn)
    → read_full n conn ≡ some (bs, conn')
    → length bs + pieces conn' ≤ pieces conn
unfolding read_full
read_full-pieces zero conn bs conn' h = ground arith
read_full-pieces (suc n) closed bs conn' h = absurd (cc h)
read_full-pieces (suc n) silent bs conn' h = absurd (cc h)
read_full-pieces (suc n) (sends piece conn) bs conn' h =
    elim (Bool-cases (ltb (length piece) (suc n))) [
      | inl e ↦ elim (Option-cases (read_full (suc n - length piece) conn)) [
        | inl f ↦ ground arith
        | inr ((rest, conn''), f) ↦ ground (
          arith,
          read_full-pieces (suc n - length piece) conn rest conn'' f,
          length-append piece rest,
        )
      ]
      | inr e ↦ ground (
        arith,
        length-take (suc n) piece,
        length-drop (suc n) piece,
        pieces-pending (drop (suc n) piece) conn,
      )
    ]

pub read_sni-work :
    (conn : Conn) (sni : Bytes) (c : PeekConn) → read_sni conn ≡ ok (sni, c) → work c ≤ pieces conn
unfolding read_sni work
read_sni-work conn sni c h = elim (Option-cases (read_full 5 conn)) [
  | inl e ↦ ground arith
  | inr ((header, conn'), e) ↦
      let (s, l) = read_full-stream 5 conn header conn' e in
      let p = read_full-pieces 5 conn header conn' e in
      let (n, en) = u16_at_ok header 3 (omega arith) in
      elim (Option-cases (read_full n conn')) [
        | inl f ↦ ground arith
        | inr ((payload, conn''), f) ↦
            ground (arith, read_full-pieces n conn' payload conn'' f, length-append header payload)
      ]
]
