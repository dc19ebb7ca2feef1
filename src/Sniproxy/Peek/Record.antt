-- ===== src/Sniproxy/Peek/Record.antt =====
-- peek.go: ReadSNI told by the bytes of a connection, without the pieces in which they come.
use kubernetes_switchcloud.Base.{
  ℕ, zero, suc, ◌+◌, ◌*◌, ◌-◌, ◌≤◌, ◌≡◌, refl, sym, ap, Bool, true, false, [], ◌∷◌, ◌++◌, Option,
  none, some, Bytes, length, take, drop, ltb, Bool-cases, Option-cases, inl, inr, arith,
  length-append, if◌then◌else◌, ltb→lt, ltb→le, ◌&&◌, subst,
}
use kubernetes_switchcloud.Sniproxy.Peek.{
  Parse, SniError, ok, fails, panic, stuck, blocked, ◌>>=◌, Conn, closed, silent, sends, pending,
  falls_silent, read_full, PeekConn, cut_off, read_sni, u16_at, extract_sni, max_client_hello_size,
  read_header, record_too_large, read_payload,
}
use kubernetes_switchcloud.Sniproxy.Peek.Bounds.{crashes, extract_sni_safe}
use kubernetes_switchcloud.Sniproxy.Peek.Replay.{stream, read_full-stream}

-- Where n bytes come, io.ReadFull gives them.
pub read_full_enough :
    (n : ℕ) (conn : Conn)
    → n ≤ length (stream conn)
    → (bs : Bytes) × (conn' : Conn) × (read_full n conn ≡ some (bs, conn'))
unfolding read_full
read_full_enough zero conn h = ([], conn, refl)
read_full_enough (suc n) closed h = absurd (omega arith)
read_full_enough (suc n) silent h = absurd (omega arith)
read_full_enough (suc n) (sends piece conn) h = elim (Bool-cases (ltb (length piece) (suc n))) [
  | inl e ↦
      let (bs, conn', f) =
        read_full_enough (suc n - length piece) conn
          (omega (arith, length-append piece (stream conn))) in
      (piece ++ bs, conn', rw (e, f) refl)
  | inr e ↦ (take (suc n) piece, pending (drop (suc n) piece) conn, rw e refl)
]

read_full_short :
    (n : ℕ) (conn : Conn) → read_full n conn ≡ none → ltb (length (stream conn)) n ≡ true
read_full_short n conn h = elim (Bool-cases (ltb (length (stream conn)) n)) [
  | inl e ↦ e
  | inr e ↦
      let (bs, conn', f) = read_full_enough n conn (ltb→le (length (stream conn)) n e) in
      absurd (cc (h, f))
]

-- The name that a parser has found.
abbrev pub name_of : Parse Bytes → Option Bytes
name_of (ok sni) = some sni
name_of (fails e) = none
name_of panic = none
name_of stuck = none
name_of blocked = none

-- The name in the first record of all that a client sends: a header of five bytes, and as many bytes
-- as it says, 4096 at most.
abbrev pub record_name : Bytes → Option Bytes
record_name (t ∷ v ∷ w ∷ a ∷ b ∷ rest) =
    if ltb max_client_hello_size (256 * a + b)
    then none
    else if ltb (length rest) (256 * a + b)
    then none
    else name_of (extract_sni (t ∷ v ∷ w ∷ a ∷ b ∷ take (256 * a + b) rest))
record_name _ = none

-- The name that ReadSNI has found.
abbrev pub found_name : Parse (Bytes × PeekConn) → Option Bytes
found_name (ok (sni, c)) = some sni
found_name (fails e) = none
found_name panic = none
found_name stuck = none
found_name blocked = none

abbrev pub is_blocked : {A : Type 0} → Parse A → Bool
is_blocked (ok a) = false
is_blocked (fails e) = false
is_blocked panic = false
is_blocked stuck = false
is_blocked blocked = true

-- Is the first record of all that a client sends cut off?
abbrev pub is_incomplete : Bytes → Bool
is_incomplete (t ∷ v ∷ w ∷ a ∷ b ∷ rest) =
    if ltb max_client_hello_size (256 * a + b) then false else ltb (length rest) (256 * a + b)
is_incomplete _ = true

falls_silent-pending :
    (bs : Bytes) (conn : Conn) → falls_silent (pending bs conn) ≡ falls_silent conn
falls_silent-pending [] conn = refl
falls_silent-pending (b ∷ bs) conn = refl

read_full-silent :
    (n : ℕ) (conn : Conn) (bs : Bytes) (conn' : Conn)
    → read_full n conn ≡ some (bs, conn')
    → falls_silent conn' ≡ falls_silent conn
unfolding read_full
read_full-silent zero conn bs conn' h = ground arith
read_full-silent (suc n) closed bs conn' h = absurd (cc h)
read_full-silent (suc n) silent bs conn' h = absurd (cc h)
read_full-silent (suc n) (sends piece conn) bs conn' h =
    elim (Bool-cases (ltb (length piece) (suc n))) [
      | inl e ↦ elim (Option-cases (read_full (suc n - length piece) conn)) [
        | inl f ↦ ground arith
        | inr ((rest, conn''), f) ↦
            ground (arith, read_full-silent (suc n - length piece) conn rest conn'' f)
      ]
      | inr e ↦ ground (arith, falls_silent-pending (drop (suc n) piece) conn)
    ]

take-length-append : (xs ys : Bytes) → take (length xs) (xs ++ ys) ≡ xs
take-length-append [] ys = refl
take-length-append (x ∷ xs) ys = ap (◌∷◌ x) (take-length-append xs ys)

-- What ReadSNI comes to, by the bytes and the end of the connection alone: the name of the first
-- record, and no return just where that is cut off by a client that goes silent.
abbrev pub Reads : Parse (Bytes × PeekConn) → Bytes → Bool → Type 0
Reads r s silence =
    (found_name r ≡ record_name s)
    × (is_blocked r ≡ (silence && is_incomplete s))
    × (crashes r ≡ is_blocked r)

cut_off-Reads :
    (e : SniError) (conn : Conn) (s : Bytes)
    → record_name s ≡ none
    → is_incomplete s ≡ true
    → Reads (cut_off e conn) s (falls_silent conn)
cut_off-Reads e conn s n i = elim (Bool-cases (falls_silent conn)) [
  | inl f ↦ rw (f, n, i) (refl, refl, refl)
  | inr f ↦ rw (f, n) (refl, refl, refl)
]

short_header : (s : Bytes) → length s ≤ 4 → (record_name s ≡ none) × (is_incomplete s ≡ true)
short_header [] h = (refl, refl)
short_header (t ∷ []) h = (refl, refl)
short_header (t ∷ v ∷ []) h = (refl, refl)
short_header (t ∷ v ∷ w ∷ []) h = (refl, refl)
short_header (t ∷ v ∷ w ∷ a ∷ []) h = (refl, refl)
short_header (t ∷ v ∷ w ∷ a ∷ b ∷ s) h = absurd (omega arith)

five_bytes : (hd : Bytes) → length hd ≡ 5 → (t v w a b : ℕ) × (hd ≡ t ∷ v ∷ w ∷ a ∷ b ∷ [])
five_bytes [] h = absurd (omega arith)
five_bytes (t ∷ []) h = absurd (omega arith)
five_bytes (t ∷ v ∷ []) h = absurd (omega arith)
five_bytes (t ∷ v ∷ w ∷ []) h = absurd (omega arith)
five_bytes (t ∷ v ∷ w ∷ a ∷ []) h = absurd (omega arith)
five_bytes (t ∷ v ∷ w ∷ a ∷ b ∷ []) h = (t, v, w, a, b, refl)
five_bytes (t ∷ v ∷ w ∷ a ∷ b ∷ x ∷ hd) h = absurd (omega arith)

named-Reads :
    (r : Parse Bytes) (c : PeekConn) (s : Bytes) (silence : Bool)
    → crashes r ≡ false
    → record_name s ≡ name_of r
    → is_incomplete s ≡ false
    → Reads (r >>= λ sni. ok (sni, c)) s silence
named-Reads (ok sni) c s silence h n i = rw (n, i) (refl, ground arith, refl)
named-Reads (fails e) c s silence h n i = rw (n, i) (refl, ground arith, refl)
named-Reads panic c s silence h n i = absurd (cc h)
named-Reads stuck c s silence h n i = absurd (cc h)
named-Reads blocked c s silence h n i = absurd (cc h)

module _ (t v w a b : ℕ) (conn : Conn) where
  abbrev size : ℕ
  size = 256 * a + b

  abbrev whole : Bytes
  whole = t ∷ v ∷ w ∷ a ∷ b ∷ stream conn

  -- ReadSNI behind the header.
  abbrev payload : Parse (Bytes × PeekConn)
  payload =
      if ltb max_client_hello_size size
      then fails record_too_large
      else elim (read_full size conn) [
        | none ↦ cut_off read_payload conn
        | some (bytes, conn') ↦
            let buf = t ∷ v ∷ w ∷ a ∷ b ∷ bytes in
            extract_sni buf >>= λ sni. ok (sni, record { conn = conn'; buf = buf; pos = 0 })
      ]

  abbrev IsRead : Parse (Bytes × PeekConn) → Type 0
  IsRead r = Reads r whole (falls_silent conn)

  payload-Reads : IsRead payload
  payload-Reads = elim (Bool-cases (ltb max_client_hello_size size)) [
    | inl f ↦ rw f (refl, ground arith, refl)
    | inr f ↦ elim (Option-cases (read_full size conn)) [
      | inl g ↦
          let short = read_full_short size conn g in
          let same : payload ≡ cut_off read_payload conn = rw (f, g) refl in
          subst IsRead (sym same)
            (cut_off-Reads read_payload conn whole (rw (f, short) refl) (rw (f, short) refl))
      | inr ((bytes, conn'), g) ↦
          let (s, l) = read_full-stream size conn bytes conn' g in
          let buf = t ∷ v ∷ w ∷ a ∷ b ∷ bytes in
          let long : ltb (length (stream conn)) size ≡ false =
            rw (← s) (ground (arith, l, length-append bytes (stream conn'))) in
          let first : take size (stream conn) ≡ bytes =
            rw (← s, ← l) (take-length-append bytes (stream conn')) in
          let c : PeekConn = record { conn = conn'; buf = buf; pos = 0 } in
          let same : payload ≡ (extract_sni buf >>= λ sni. ok (sni, c)) = rw (f, g) refl in
          subst IsRead (sym same) (
            named-Reads (extract_sni buf) c whole (falls_silent conn) (extract_sni_safe buf)
              (rw (f, long, first) refl) (rw (f, long) refl))
    ]
  ]

-- In whatever pieces a connection delivers its bytes, ReadSNI finds the name of their first record,
-- does not return just where that record is cut off and the client goes silent, and otherwise gives
-- a name or an error.
pub read_sni-Reads : (conn : Conn) → Reads (read_sni conn) (stream conn) (falls_silent conn)
unfolding read_sni u16_at
read_sni-Reads conn = elim (Option-cases (read_full 5 conn)) [
  | inl e ↦
      let short = ltb→lt (length (stream conn)) 5 (read_full_short 5 conn e) in
      let (n, i) = short_header (stream conn) (omega (arith, short)) in
      rw (e, read_sni) (cut_off-Reads read_header conn (stream conn) n i)
  | inr ((hd, conn'), e) ↦
      let (s, l) = read_full-stream 5 conn hd conn' e in
      let (t, v, w, a, b, q) = five_bytes hd l in
      let split : t ∷ v ∷ w ∷ a ∷ b ∷ stream conn' ≡ stream conn = rw q at s in
      let silence = read_full-silent 5 conn hd conn' e in
      let header : read_full 5 conn ≡ some (t ∷ v ∷ w ∷ a ∷ b ∷ [], conn') = rw q at e in
      let same : read_sni conn ≡ payload t v w a b conn' = rw (header, read_sni) refl in
      subst (λ r. Reads r (stream conn) (falls_silent conn)) (sym same)
        (subst (λ x. Reads (payload t v w a b conn') x (falls_silent conn)) split
          (subst (λ x. Reads (payload t v w a b conn') (t ∷ v ∷ w ∷ a ∷ b ∷ stream conn') x) silence
            (payload-Reads t v w a b conn')))
]
