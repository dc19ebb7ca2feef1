-- ===== src/Sniproxy/Listeners/RoundTrip.antt =====
-- talos-edge-router/main.go: a listener written on the command line, and read back.
use kubernetes_switchcloud.Base.{
  ℕ, zero, suc, ◌+◌, ◌*◌, ◌-◌, ◌/◌, ◌%◌, ◌≤◌, ◌<◌, true, false, ◌||◌, List, [], ◌∷◌, ◌++◌, none,
  some, Bytes, is_empty, decimal, decimal_onto, cut_byte, contains_byte, cut_byte-append, ltb, leb,
  ◌==◌, ◌≡◌, refl, ◌∙◌, ap, arith, Bool-cases, inl, inr, All,
}
use kubernetes_switchcloud.Sniproxy.Listeners.{
  Listener, split_n, digits_value, pos, in_range, atoi, port_of, ok, listener_of, set_parts,
  set_flag,
}

digits_value-digit :
    (m d : ℕ) (out : Bytes)
    → d < 10
    → digits_value m ((48 + d) ∷ out) ≡ digits_value (10 * m + d) out
unfolding digits_value
digits_value-digit m d out h =
    let low : leb 48 (48 + d) ≡ true = ground arith in
    let high : leb (48 + d) 57 ≡ true = ground (arith, h) in
    let e : 10 * m + (48 + d - 48) ≡ 10 * m + d = omega arith in rw (low, high, e) refl

-- Atoi reads the digits that "%d" writes.
digits_value-decimal_onto :
    (fuel n : ℕ) (out : Bytes)
    → n < fuel
    → digits_value 0 (decimal_onto fuel n out) ≡ digits_value n out
unfolding decimal_onto
digits_value-decimal_onto zero n out h = absurd (omega arith)
digits_value-decimal_onto (suc fuel) n out h = elim (Bool-cases (ltb n 10)) [
  | inl e ↦
      let small : 10 * 0 + n % 10 ≡ n = ground (arith, e) in
      rw e (digits_value-digit 0 (n % 10) out (omega arith) ∙ rw small refl)
  | inr e ↦
      let whole : 10 * (n / 10) + n % 10 ≡ n = omega arith in
      let more : n / 10 < fuel = ground (arith, e, h) in
      rw e (
        digits_value-decimal_onto fuel (n / 10) ((48 + n % 10) ∷ out) more
        ∙ (digits_value-digit (n / 10) (n % 10) out (omega arith) ∙ rw whole refl))
]

abbrev IsDigit : ℕ → Type 0
IsDigit c = (48 ≤ c) × (c ≤ 57)

decimal_onto-IsDigit :
    (fuel n : ℕ) (out : Bytes) → All IsDigit out → All IsDigit (decimal_onto fuel n out)
unfolding decimal_onto
decimal_onto-IsDigit zero n out h = h
decimal_onto-IsDigit (suc fuel) n out h =
    let digit : IsDigit (48 + n % 10) = (omega arith, omega arith) in
    elim (Bool-cases (ltb n 10)) [
      | inl e ↦ rw e (digit, h)
      | inr e ↦ rw e (decimal_onto-IsDigit fuel (n / 10) ((48 + n % 10) ∷ out) (digit, h))
    ]

decimal_onto-is_empty :
    (fuel n : ℕ) (c : ℕ) (out : Bytes) → is_empty (decimal_onto fuel n (c ∷ out)) ≡ false
unfolding decimal_onto
decimal_onto-is_empty zero n c out = refl
decimal_onto-is_empty (suc fuel) n c out = elim (Bool-cases (ltb n 10)) [
  | inl e ↦ rw e refl
  | inr e ↦ rw e (decimal_onto-is_empty fuel (n / 10) (48 + n % 10) (c ∷ out))
]

decimal-is_empty : (n : ℕ) → is_empty (decimal n) ≡ false
unfolding decimal decimal_onto
decimal-is_empty n = elim (Bool-cases (ltb n 10)) [
  | inl e ↦ rw e refl
  | inr e ↦ rw e (decimal_onto-is_empty n (n / 10) (48 + n % 10) [])
]

atoi_digits :
    (s : Bytes) (n : ℕ)
    → is_empty s ≡ false
    → All IsDigit s
    → digits_value 0 s ≡ some n
    → atoi s ≡ in_range 9223372036854775808 pos (some n)
unfolding atoi
atoi_digits [] n h d e = absurd (cc h)
atoi_digits (c ∷ s) n h d e =
    let no_minus : (c == b'-') ≡ false = ground (arith, d.0) in
    let no_plus : (c == b'+') ≡ false = ground (arith, d.0) in rw (no_minus, no_plus, e) refl

port_of-atoi : (n : ℕ) → 1 ≤ n → n ≤ 65535 → port_of (atoi (decimal n)) ≡ some n
unfolding decimal digits_value
port_of-atoi n h k =
    let read =
      atoi_digits (decimal n) n (decimal-is_empty n) (decimal_onto-IsDigit (suc n) n [] tt)
        (digits_value-decimal_onto (suc n) n [] (omega arith)) in
    let fits : ltb n 9223372036854775808 ≡ true = ground (arith, k) in
    let nonzero : (n == 0) ≡ false = ground (arith, h) in
    let small : ltb 65535 n ≡ false = ground (arith, k) in rw read (rw (fits, nonzero, small) refl)

digits_no_colon : (s : Bytes) → All IsDigit s → contains_byte b':' s ≡ false
unfolding contains_byte
digits_no_colon [] h = refl
digits_no_colon (c ∷ s) h = ground (arith, h.0, digits_no_colon s h.1)

decimal-no_colon : (n : ℕ) → contains_byte b':' (decimal n) ≡ false
unfolding decimal
decimal-no_colon n = digits_no_colon (decimal n) (decimal_onto-IsDigit (suc n) n [] tt)

split_n-cut :
    (n : ℕ) (a r : Bytes)
    → contains_byte b':' a ≡ false
    → split_n b':' (suc (suc n)) (a ++ b':' ∷ r) ≡ a ∷ split_n b':' (suc n) r
unfolding split_n
split_n-cut n a r h = rw (cut_byte-append b':' a r h, split_n) refl

cut_byte-none : (s : Bytes) → contains_byte b':' s ≡ false → cut_byte b':' s ≡ none
unfolding cut_byte contains_byte
cut_byte-none [] h = refl
cut_byte-none (c ∷ s) h = ground (arith, h, cut_byte-none s)

split_n-whole :
    (n : ℕ) (s : Bytes) → contains_byte b':' s ≡ false → split_n b':' (suc (suc n)) s ≡ s ∷ []
unfolding split_n
split_n-whole n s h = rw (cut_byte-none s h, split_n) refl

set_parts_ok :
    (l : List Listener) (name port label : Bytes) (target : List Bytes) (n : ℕ)
    → port_of (atoi port) ≡ some n
    → is_empty name || is_empty label ≡ false
    → set_parts l (name ∷ port ∷ label ∷ target) ≡ ok (l ++ (listener_of name n label target ∷ []))
unfolding set_parts
set_parts_ok l name port label target n h e = rw (h, set_parts) (rw e refl)

-- The text of a listener, without and with a target port.
abbrev pub short_flag : Bytes → ℕ → Bytes → Bytes
short_flag name port label = name ++ b':' ∷ (decimal port ++ b':' ∷ label)

abbrev pub long_flag : Bytes → ℕ → Bytes → Bytes → Bytes
long_flag name port label target = name ++ b':' ∷ (decimal port ++ b':' ∷ (label ++ b':' ∷ target))

-- Of a listener written as name:port:label or name:port:label:targetPort, with a name and a label
-- that are not empty and have no colon, a port of 1 to 65535 in decimal and any target port, Set
-- appends the listener with those fields.
pub set_flag-long_flag :
    (l : List Listener) (name : Bytes) (port : ℕ) (label target : Bytes)
    → contains_byte b':' name ≡ false
    → contains_byte b':' label ≡ false
    → is_empty name || is_empty label ≡ false
    → 1 ≤ port
    → port ≤ 65535
    → (set_flag l (long_flag name port label target)
        ≡ ok (l ++ (listener_of name port label (target ∷ []) ∷ [])))
      × (set_flag l (short_flag name port label) ≡ ok (l ++ (listener_of name port label [] ∷ [])))
unfolding set_flag split_n
set_flag-long_flag l name port label target n k full low high =
    let text = decimal port in
    let p = decimal-no_colon port in
    let read = port_of-atoi port low high in
    let long : split_n b':' 4 (long_flag name port label target)
        ≡ name ∷ text ∷ label ∷ target ∷ [] =
      split_n-cut 2 name (text ++ b':' ∷ (label ++ b':' ∷ target)) n
      ∙ ap (◌∷◌ name) (
          split_n-cut 1 text (label ++ b':' ∷ target) p
          ∙ ap (◌∷◌ text) (split_n-cut 0 label target k)) in
    let short : split_n b':' 4 (short_flag name port label) ≡ name ∷ text ∷ label ∷ [] =
      split_n-cut 2 name (text ++ b':' ∷ label) n
      ∙ ap (◌∷◌ name) (split_n-cut 1 text label p ∙ ap (◌∷◌ text) (split_n-whole 0 label k)) in
    (
      ap (set_parts l) long ∙ set_parts_ok l name text label (target ∷ []) port read full,
      ap (set_parts l) short ∙ set_parts_ok l name text label [] port read full,
    )
