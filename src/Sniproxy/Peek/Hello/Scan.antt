-- ===== src/Sniproxy/Peek/Hello/Scan.antt =====
-- peek.go: the loops of the parser on lists written out.
use kubernetes_switchcloud.Base.{
  ℕ, zero, suc, ◌+◌, ◌-◌, ◌/◌, ◌%◌, ◌<◌, ◌≡◌, refl, ap, List, [], ◌∷◌, ◌++◌, Bytes, length, drop,
  take-length, drop-length, length-append, arith, subst,
}
use kubernetes_switchcloud.Sniproxy.Peek.{
  ok, byte_at, u16_at, slice, scan_names, parse_sni_extension, scan_extensions,
}

-- A number as two bytes, the higher first.
abbrev pub u16 : ℕ → Bytes → Bytes
u16 n rest = (n / 256) ∷ (n % 256) ∷ rest

-- From `pos` on, the string is `rest`.
pub record At (s : Bytes) (pos : ℕ) (rest : Bytes) : Type 0 where
  pub rest_is : drop pos s ≡ rest
  pub total : length s ≡ pos + length rest

drop-add : (m : ℕ) (s xs r : Bytes) → drop m s ≡ xs ++ r → drop (m + length xs) s ≡ r
drop-add zero s xs r h = rw h (ground (arith, drop-length xs r))
drop-add (suc m) [] [] r h = ground (arith, drop-add m [] [] r)
drop-add (suc m) [] (x ∷ xs) r h = absurd (cc h)
drop-add (suc m) (c ∷ s) xs r h =
    let e : suc m + length xs ≡ suc (m + length xs) = omega arith in rw e (drop-add m s xs r h)

module _ {s : Bytes} {pos : ℕ} where
  pub At-skip : (xs r : Bytes) → At s pos (xs ++ r) → At s (pos + length xs) r
  At-skip xs r a = record {
    rest_is = drop-add pos s xs r a.rest_is;
    total = omega (arith, a.total, length-append xs r);
  }

  pub byte_at-At : (b : ℕ) (r : Bytes) → At s pos (b ∷ r) → byte_at s pos ≡ ok b
  unfolding byte_at
  byte_at-At b r a = rw a.rest_is

  pub u16_at-At : (n : ℕ) (r : Bytes) → At s pos (u16 n r) → u16_at s pos ≡ ok n
  unfolding u16_at
  u16_at-At n r a = rw a.rest_is (ap ok (omega arith))

  pub slice-At : (xs r : Bytes) → At s pos (xs ++ r) → slice s pos (pos + length xs) ≡ ok xs
  unfolding slice
  slice-At xs r a =
      let e : pos + length xs - pos ≡ length xs = omega arith in
      let t = take-length xs r in ground (arith, e, t, a.rest_is, a.total, length-append xs r)

-- An extension: its type, its length and its value.
abbrev pub extension : ℕ → Bytes → Bytes → Bytes
extension type value rest = u16 type (u16 (length value) (value ++ rest))

-- Extensions, none of which has the type of the server name, which is 0.
abbrev pub extensions : List (ℕ × Bytes) → Bytes → Bytes
extensions [] rest = rest
extensions ((type, value) ∷ es) rest = extension (suc type) value (extensions es rest)

-- An entry of the list of names: its type, its length and the name.
abbrev pub entry : ℕ → Bytes → Bytes → Bytes
entry type name rest = type ∷ u16 (length name) (name ++ rest)

-- Entries, none of which has the type of a host name, which is 0.
abbrev pub entries : List (ℕ × Bytes) → Bytes → Bytes
entries [] rest = rest
entries ((type, name) ∷ es) rest = entry (suc type) name (entries es rest)

scan_names_finds :
    (fuel : ℕ) (s : Bytes) (pos end : ℕ) (es : List (ℕ × Bytes)) (host rest : Bytes)
    → At s pos (entries es (entry 0 host rest))
    → length s ≡ end
    → end - pos < fuel
    → scan_names fuel s pos end ≡ ok host
unfolding scan_names
scan_names_finds zero s pos end es host rest a t f = absurd (omega arith)
scan_names_finds (suc fuel) s pos end [] host rest a t f =
    let b = At-skip (0 ∷ []) (u16 (length host) (host ++ rest)) a in
    let c = At-skip (length host / 256 ∷ length host % 256 ∷ []) (host ++ rest) b in
    ground (
      arith,
      byte_at-At 0 (u16 (length host) (host ++ rest)) a,
      u16_at-At (length host) (host ++ rest) b,
      slice-At host rest c,
      length-append host rest,
    )
scan_names_finds (suc fuel) s pos end ((type, name) ∷ es) host rest a t f =
    let others = entries es (entry 0 host rest) in
    let b = At-skip (suc type ∷ []) (u16 (length name) (name ++ others)) a in
    let c = At-skip (length name / 256 ∷ length name % 256 ∷ []) (name ++ others) b in
    let d = At-skip name others c in
    let e : pos + 1 + 2 + length name ≡ pos + 3 + length name = omega arith in
    let again =
      scan_names_finds fuel s (pos + 3 + length name) end es host rest
        (subst (λ n. At s n others) e d) t (omega arith) in
    ground (
      arith,
      again,
      byte_at-At (suc type) (u16 (length name) (name ++ others)) a,
      u16_at-At (length name) (name ++ others) b,
      length-append name others,
    )

-- The value of the server name extension.
abbrev pub server_names : List (ℕ × Bytes) → Bytes → Bytes → Bytes
server_names es host rest =
    u16 (length (entries es (entry 0 host rest))) (entries es (entry 0 host rest))

pub start : (s : Bytes) → At s 0 s
start s = record { rest_is = refl; total = omega arith }

pub parse_sni_extension_finds :
    (es : List (ℕ × Bytes)) (host rest : Bytes)
    → parse_sni_extension (server_names es host rest) ≡ ok host
unfolding parse_sni_extension
parse_sni_extension_finds es host rest =
    let names = entries es (entry 0 host rest) in
    let value = server_names es host rest in
    let l = length names in
    let c = At-skip (l / 256 ∷ l % 256 ∷ []) names (start value) in
    let found =
      scan_names_finds (suc (2 + l)) value 2 (2 + l) es host rest c (omega arith) (omega arith) in
    ground (arith, found, u16_at-At l names (start value))

pub scan_extensions_finds :
    (fuel : ℕ) (s : Bytes) (pos end : ℕ) (es : List (ℕ × Bytes)) (value rest host : Bytes)
    → At s pos (extensions es (extension 0 value rest))
    → length s ≡ end
    → end - pos < fuel
    → parse_sni_extension value ≡ ok host
    → scan_extensions fuel s pos end ≡ ok host
unfolding scan_extensions
scan_extensions_finds zero s pos end es value rest host a t f v = absurd (omega arith)
scan_extensions_finds (suc fuel) s pos end [] value rest host a t f v =
    let l = length value in
    let b = At-skip (0 ∷ 0 ∷ []) (u16 l (value ++ rest)) a in
    let c = At-skip (l / 256 ∷ l % 256 ∷ []) (value ++ rest) b in
    let e : pos + 2 + 2 ≡ pos + 4 = omega arith in
    let cut = slice-At value rest (subst (λ n. At s n (value ++ rest)) e c) in
    ground (
      arith,
      v,
      cut,
      u16_at-At 0 (u16 l (value ++ rest)) a,
      u16_at-At l (value ++ rest) b,
      length-append value rest,
    )
scan_extensions_finds (suc fuel) s pos end ((type, content) ∷ es) value rest host a t f v =
    let others = extensions es (extension 0 value rest) in
    let l = length content in
    let b = At-skip (suc type / 256 ∷ suc type % 256 ∷ []) (u16 l (content ++ others)) a in
    let c = At-skip (l / 256 ∷ l % 256 ∷ []) (content ++ others) b in
    let d = At-skip content others c in
    let e : pos + 2 + 2 + l ≡ pos + 4 + l = omega arith in
    let g = subst (λ n. At s n others) e d in
    let again =
      scan_extensions_finds fuel s (pos + 4 + l) end es value rest host g t (omega arith) v in
    ground (
      arith,
      again,
      u16_at-At (suc type) (u16 l (content ++ others)) a,
      u16_at-At l (content ++ others) b,
      length-append content others,
    )
