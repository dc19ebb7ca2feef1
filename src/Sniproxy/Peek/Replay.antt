-- ===== src/Sniproxy/Peek/Replay.antt =====
-- peek.go: the bytes that ReadSNI takes off a connection, and those that its result delivers.
use kubernetes_switchcloud.Base.{
  ℕ, zero, suc, ◌+◌, ◌-◌, ◌≤◌, ◌≡◌, refl, sym, ap, ◌∙◌, [], ◌∷◌, ◌++◌, append_assoc, some, Bytes,
  length, take, drop, take-append-drop, ltb, Bool-cases, Option-cases, inl, inr, arith,
  length-append,
}
use kubernetes_switchcloud.Sniproxy.Peek.{
  ok, Conn, closed, silent, sends, pending, read_full, PeekConn, conn_read, peek_read, read_sni,
}
use kubernetes_switchcloud.Sniproxy.Peek.Bounds.{u16_at_ok, length-take}

-- All the bytes that a connection will still deliver.
abbrev pub stream : Conn → Bytes
stream closed = []
stream silent = []
stream (sends piece conn) = piece ++ stream conn

unfoldable pub peek_stream : PeekConn → Bytes
peek_stream c = drop c.pos c.buf ++ stream c.conn

stream-pending : (bs : Bytes) (conn : Conn) → stream (pending bs conn) ≡ bs ++ stream conn
stream-pending [] conn = refl
stream-pending (b ∷ bs) conn = refl

pub read_full-stream :
    (n : ℕ) (conn : Conn) (bs : Bytes) (conn' : Conn)
    → read_full n conn ≡ some (bs, conn')
    → (bs ++ stream conn' ≡ stream conn) × (length bs ≡ n)
unfolding read_full
read_full-stream zero conn bs conn' h = ground arith
read_full-stream (suc n) closed bs conn' h = absurd (cc h)
read_full-stream (suc n) silent bs conn' h = absurd (cc h)
read_full-stream (suc n) (sends piece conn) bs conn' h =
    elim (Bool-cases (ltb (length piece) (suc n))) [
      | inl e ↦ elim (Option-cases (read_full (suc n - length piece) conn)) [
        | inl f ↦ ground arith
        | inr ((rest, conn''), f) ↦
            let (ih, il) = read_full-stream (suc n - length piece) conn rest conn'' f in
            ground
              (arith, ih, il, append_assoc piece rest (stream conn''), length-append piece rest)
      ]
      | inr e ↦ ground (
        arith,
        stream-pending (drop (suc n) piece) conn,
        append_assoc (take (suc n) piece) (drop (suc n) piece) (stream conn),
        take-append-drop (suc n) piece,
        length-take (suc n) piece,
      )
    ]

conn_read-stream :
    (n : ℕ) (conn : Conn) → (conn_read n conn).0 ++ stream (conn_read n conn).1 ≡ stream conn
unfolding conn_read
conn_read-stream n closed = refl
conn_read-stream n silent = refl
conn_read-stream n (sends piece conn) =
    ap (◌++◌ (take n piece)) (stream-pending (drop n piece) conn)
    ∙ (sym (append_assoc (take n piece) (drop n piece) (stream conn))
        ∙ ap (λ s. s ++ stream conn) (take-append-drop n piece))

drop_nil : (n : ℕ) → drop {A = ℕ} n [] ≡ []
drop_nil zero = refl
drop_nil (suc n) = refl

drop-drop : (m n : ℕ) (xs : Bytes) → drop n (drop m xs) ≡ drop (m + n) xs
drop-drop zero n xs = ground arith
drop-drop (suc m) zero xs = ground arith
drop-drop (suc m) (suc n) [] = ground (arith, drop_nil (suc m + suc n))
drop-drop (suc m) (suc n) (x ∷ xs) =
    let e : suc m + suc n ≡ suc (m + suc n) = omega arith in rw e (drop-drop m (suc n) xs)

drop-length-take : (n : ℕ) (xs : Bytes) → drop (length (take n xs)) xs ≡ drop n xs
drop-length-take zero xs = refl
drop-length-take (suc n) [] = refl
drop-length-take (suc n) (x ∷ xs) = drop-length-take n xs

-- A read through the PeekConn, into a buffer of any size, gives the next bytes of what is pending,
-- and leaves the others pending, in order.
pub peek_read-stream :
    (n : ℕ) (c : PeekConn) → (peek_read n c).0 ++ peek_stream (peek_read n c).1 ≡ peek_stream c
unfolding peek_read peek_stream
peek_read-stream n c = elim (Bool-cases (ltb c.pos (length c.buf))) [
  | inl e ↦
      let rest = drop c.pos c.buf in
      rw e (
        rw (← drop-drop c.pos (length (take n rest)) c.buf, drop-length-take n rest)
          (sym (append_assoc (take n rest) (drop n rest) (stream c.conn))
            ∙ ap (λ s. s ++ stream c.conn) (take-append-drop n rest)))
  | inr e ↦
      let empty = drop_all c.pos c.buf (ground arith) in rw (e, empty) (conn_read-stream n c.conn)
]
  where
    drop_all : (m : ℕ) (xs : Bytes) → length xs ≤ m → drop m xs ≡ []
    drop_all zero [] h = refl
    drop_all zero (x ∷ xs) h = absurd (omega arith)
    drop_all (suc m) [] h = refl
    drop_all (suc m) (x ∷ xs) h = drop_all m xs (omega arith)

-- Where ReadSNI succeeds, the connection that it returns delivers, from its first byte, what the
-- connection it was given would have delivered.
pub read_sni-stream :
    (conn : Conn) (sni : Bytes) (c : PeekConn)
    → read_sni conn ≡ ok (sni, c)
    → peek_stream c ≡ stream conn
unfolding read_sni peek_stream
read_sni-stream conn sni c h = elim (Option-cases (read_full 5 conn)) [
  | inl e ↦ ground arith
  | inr ((header, conn'), e) ↦
      let (s, l) = read_full-stream 5 conn header conn' e in
      let (n, en) = u16_at_ok header 3 (omega arith) in
      elim (Option-cases (read_full n conn')) [
        | inl f ↦ ground arith
        | inr ((payload, conn''), f) ↦
            let (s', l') = read_full-stream n conn' payload conn'' f in
            ground (arith, append_assoc header payload (stream conn''))
      ]
]
