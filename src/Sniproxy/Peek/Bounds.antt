-- ===== src/Sniproxy/Peek/Bounds.antt =====
-- peek.go: the bounds of the reads of the parser, and the fuel of its loops.
use kubernetes_switchcloud.Base.{
  ℕ, zero, suc, ◌+◌, ◌-◌, ◌≤◌, ◌<◌, ◌≡◌, refl, Bool, true, false, [], ◌∷◌, Bytes, length, take,
  drop, ltb, leb, Bool-cases, inl, inr, arith,
}
use kubernetes_switchcloud.Sniproxy.Peek.{
  Parse, ok, fails, panic, stuck, blocked, byte_of, u16_of, byte_at, u16_at, slice, scan_names,
  parse_sni_extension, scan_extensions, read_extensions, skip_compression, skip_cipher_suites,
  parse_hello_body, parse_handshake, extract_sni,
}

-- Is it neither a name nor an error, but a read out of bounds, a loop that did not end, or a read
-- that does not return?
abbrev pub crashes : {A : Type 0} → Parse A → Bool
crashes (ok a) = false
crashes (fails e) = false
crashes panic = true
crashes stuck = true
crashes blocked = true

pub length-drop : (n : ℕ) (xs : Bytes) → length (drop n xs) ≡ length xs - n
length-drop zero xs = omega arith
length-drop (suc n) [] = omega arith
length-drop (suc n) (x ∷ xs) = omega (arith, length-drop n xs)

pub length-take : (n : ℕ) (xs : Bytes) → n ≤ length xs → length (take n xs) ≡ n
length-take zero xs h = refl
length-take (suc n) [] h = omega arith
length-take (suc n) (x ∷ xs) h = omega (arith, length-take n xs)

byte_at_ok : (s : Bytes) (i : ℕ) → i < length s → (b : ℕ) × (byte_at s i ≡ ok b)
unfolding byte_at
byte_at_ok s i h = go (drop i s) (length-drop i s)
  where
    go : (t : Bytes) → length t ≡ length s - i → (b : ℕ) × (byte_of t ≡ ok b)
    go [] e = absurd (omega arith)
    go (b ∷ bs) e = (b, refl)

pub u16_at_ok : (s : Bytes) (i : ℕ) → i + 2 ≤ length s → (n : ℕ) × (u16_at s i ≡ ok n)
unfolding u16_at
u16_at_ok s i h = go (drop i s) (length-drop i s)
  where
    go : (t : Bytes) → length t ≡ length s - i → (n : ℕ) × (u16_of t ≡ ok n)
    go [] e = absurd (omega arith)
    go (a ∷ []) e = absurd (omega arith)
    go (a ∷ b ∷ bs) e = (_, refl)

slice_ok :
    (s : Bytes) (lo hi : ℕ)
    → lo ≤ hi
    → hi ≤ length s
    → slice s lo hi ≡ ok (take (hi - lo) (drop lo s))
unfolding slice
slice_ok s lo hi h k = ground arith

scan_names_safe :
    (fuel : ℕ) (s : Bytes) (pos end : ℕ)
    → end - pos < fuel
    → end ≤ length s
    → crashes (scan_names fuel s pos end) ≡ false
unfolding scan_names
scan_names_safe zero s pos end h k = absurd (omega arith)
scan_names_safe (suc fuel) s pos end h k = elim (Bool-cases (leb (pos + 3) end)) [
  | inr e ↦ rw e
  | inl e ↦
      let (t, et) = byte_at_ok s pos (ground arith) in
      let (l, el) = u16_at_ok s (pos + 1) (ground arith) in
      ground (
        arith,
        et,
        el,
        slice_ok s (pos + 3) (pos + 3 + l),
        scan_names_safe fuel s (pos + 3 + l) end,
      )
]

parse_sni_extension_safe : (s : Bytes) → crashes (parse_sni_extension s) ≡ false
unfolding parse_sni_extension
parse_sni_extension_safe s = elim (Bool-cases (ltb (length s) 2)) [
  | inl e ↦ rw e
  | inr e ↦
      let (l, el) = u16_at_ok s 0 (ground arith) in
      ground (arith, el, scan_names_safe (suc (2 + l)) s 2 (2 + l))
]

scan_extensions_safe :
    (fuel : ℕ) (s : Bytes) (pos end : ℕ)
    → end - pos < fuel
    → end ≤ length s
    → crashes (scan_extensions fuel s pos end) ≡ false
unfolding scan_extensions
scan_extensions_safe zero s pos end h k = absurd (omega arith)
scan_extensions_safe (suc fuel) s pos end h k = elim (Bool-cases (leb (pos + 4) end)) [
  | inr e ↦ rw e
  | inl e ↦
      let (t, et) = u16_at_ok s pos (ground arith) in
      let (l, el) = u16_at_ok s (pos + 2) (ground arith) in
      ground (
        arith,
        et,
        el,
        slice_ok s (pos + 4) (pos + 4 + l),
        parse_sni_extension_safe (take (pos + 4 + l - (pos + 4)) (drop (pos + 4) s)),
        scan_extensions_safe fuel s (pos + 4 + l) end,
      )
]

read_extensions_safe : (s : Bytes) (pos : ℕ) → crashes (read_extensions s pos) ≡ false
unfolding read_extensions
read_extensions_safe s pos = elim (Bool-cases (ltb (length s) (pos + 2))) [
  | inl e ↦ rw e
  | inr e ↦
      let (l, el) = u16_at_ok s pos (ground arith) in
      ground (arith, el, scan_extensions_safe (suc (pos + 2 + l)) s (pos + 2) (pos + 2 + l))
]

skip_compression_safe : (s : Bytes) (pos : ℕ) → crashes (skip_compression s pos) ≡ false
unfolding skip_compression
skip_compression_safe s pos = elim (Bool-cases (ltb (length s) (pos + 1))) [
  | inl e ↦ rw e
  | inr e ↦
      let (l, el) = byte_at_ok s pos (ground arith) in
      ground (arith, el, read_extensions_safe s (pos + 1 + l))
]

skip_cipher_suites_safe : (s : Bytes) (pos : ℕ) → crashes (skip_cipher_suites s pos) ≡ false
unfolding skip_cipher_suites
skip_cipher_suites_safe s pos = elim (Bool-cases (ltb (length s) (pos + 2))) [
  | inl e ↦ rw e
  | inr e ↦
      let (l, el) = u16_at_ok s pos (ground arith) in
      ground (arith, el, skip_compression_safe s (pos + 2 + l))
]

parse_hello_body_safe : (s : Bytes) → crashes (parse_hello_body s) ≡ false
unfolding parse_hello_body
parse_hello_body_safe s = elim (Bool-cases (ltb (length s) 35)) [
  | inl e ↦ rw e
  | inr e ↦
      let (l, el) = byte_at_ok s 34 (ground arith) in
      ground (arith, el, skip_cipher_suites_safe s (34 + 1 + l))
]

parse_handshake_safe : (s : Bytes) → crashes (parse_handshake s) ≡ false
unfolding parse_handshake
parse_handshake_safe s = elim (Bool-cases (ltb (length s) 4)) [
  | inl e ↦ rw e
  | inr e ↦
      let (t, et) = byte_at_ok s 0 (ground arith) in
      ground
        (arith, et, slice_ok s 4 (length s), parse_hello_body_safe (take (length s - 4) (drop 4 s)))
]

-- On any bytes whatever, extractSNI reads within them, and its loops end: it gives a name or one of
-- its errors.
pub extract_sni_safe : (s : Bytes) → crashes (extract_sni s) ≡ false
unfolding extract_sni
extract_sni_safe s = elim (Bool-cases (ltb (length s) 5)) [
  | inl e ↦ rw e
  | inr e ↦
      let (t, et) = byte_at_ok s 0 (ground arith) in
      let (l, el) = u16_at_ok s 3 (ground arith) in
      ground
        (arith, et, el, slice_ok s 5 (5 + l), parse_handshake_safe (take (5 + l - 5) (drop 5 s)))
]
