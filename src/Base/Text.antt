-- ===== src/Base/Text.antt =====
-- Go strings as lists of bytes, with the functions of package strings that the program calls.
use Prim.Native.Char.{code}
use Prim.Native.String.{String}
use Prim.Native.Nat.{ℕ, zero, suc, ◌+◌, ◌/◌, ◌%◌}
use mathlib.Core.Path.{◌≡◌, refl}
use mathlib.Core.Logic.{◌↔◌, inl, inr}
use mathlib.Core.Bool.{Bool, true, false, ◌&&◌, ◌||◌}
use mathlib.Core.List.{List, [], ◌∷◌, ◌++◌}
use mathlib.Core.Option.{Option, none, some}
use native.Mathlib.Omega.{arith}
use kubernetes_switchcloud.Base.Tests.{◌==◌, leb, ltb, if◌then◌else◌, Bool-cases, Option-cases}
use kubernetes_switchcloud.Base.Lists.{length, drop, drop-length}

abbrev pub Bytes : Type 0
Bytes = List ℕ

-- The bytes of a literal; every literal of the program is ASCII. It is shut, so that a literal
-- stays one word in a goal.
unfoldable pub lit : String → Bytes
lit String.[] = []
lit (String.◌∷◌ c s) = code c ∷ lit s

-- s == t
unfoldable pub bytes_eq : Bytes → Bytes → Bool
bytes_eq [] [] = true
bytes_eq (x ∷ xs) (y ∷ ys) = x == y && bytes_eq xs ys
bytes_eq _ _ = false

pub bytes_eq_iff : (s t : Bytes) → (bytes_eq s t ≡ true) ↔ (s ≡ t)
unfolding bytes_eq
bytes_eq_iff (x ∷ xs) (y ∷ ys) = ground (arith, bytes_eq_iff xs ys)
bytes_eq_iff _ _ = ground arith

pub bytes_eq_refl : (s : Bytes) → bytes_eq s s ≡ true
bytes_eq_refl s = (bytes_eq_iff s s).1 refl

abbrev pub is_empty : Bytes → Bool
is_empty [] = true
is_empty (x ∷ xs) = false

-- strings.HasPrefix(s, prefix)
unfoldable pub has_prefix : Bytes → Bytes → Bool
has_prefix s [] = true
has_prefix [] (p ∷ ps) = false
has_prefix (c ∷ s) (p ∷ ps) = c == p && has_prefix s ps

pub has_prefix-append : (p s : Bytes) → has_prefix (p ++ s) p ≡ true
unfolding has_prefix
has_prefix-append [] [] = refl
has_prefix-append [] (c ∷ s) = refl
has_prefix-append (c ∷ p) s = ground (arith, has_prefix-append p s)

-- A string with a prefix is the prefix and what is left of it.
pub has_prefix-split : (s p : Bytes) → has_prefix s p ≡ true → s ≡ p ++ drop (length p) s
unfolding has_prefix
has_prefix-split s [] h = refl
has_prefix-split [] (p ∷ ps) h = cc
has_prefix-split (c ∷ s) (p ∷ ps) h = ground (arith, has_prefix-split s ps)

-- strings.TrimPrefix(s, prefix)
unfoldable pub trim_prefix : Bytes → Bytes → Bytes
trim_prefix s p = if has_prefix s p then drop (length p) s else s

pub trim_prefix-append : (p s : Bytes) → trim_prefix (p ++ s) p ≡ s
unfolding trim_prefix
trim_prefix-append p s = rw (has_prefix-append p s) (drop-length p s)

pub trim_prefix-split : (s p : Bytes) → has_prefix s p ≡ true → s ≡ p ++ trim_prefix s p
unfolding trim_prefix
trim_prefix-split s p h = rw h (has_prefix-split s p h)

-- strings.HasSuffix(s, suffix): the end of s, as long as suffix, is suffix.
unfoldable pub has_suffix : Bytes → Bytes → Bool
unfolding bytes_eq
has_suffix [] q = bytes_eq [] q
has_suffix (c ∷ s) q = bytes_eq (c ∷ s) q || has_suffix s q

-- strings.TrimSuffix(s, suffix)
unfoldable pub cut_suffix : Bytes → Bytes → Bytes
unfolding bytes_eq
cut_suffix [] q = []
cut_suffix (c ∷ s) q = if bytes_eq (c ∷ s) q then [] else c ∷ cut_suffix s q

unfoldable pub trim_suffix : Bytes → Bytes → Bytes
unfolding has_suffix cut_suffix
trim_suffix s q = if has_suffix s q then cut_suffix s q else s

-- strings.Contains(s, sub)
unfoldable pub contains : Bytes → Bytes → Bool
unfolding has_prefix
contains [] sub = has_prefix [] sub
contains (c ∷ s) sub = has_prefix (c ∷ s) sub || contains s sub

-- strings.IndexByte(s, b) >= 0
unfoldable pub contains_byte : ℕ → Bytes → Bool
contains_byte b [] = false
contains_byte b (c ∷ s) = c == b || contains_byte b s

-- The parts of s before and after its first b, if it has one.
unfoldable pub cut_byte : ℕ → Bytes → Option (Bytes × Bytes)
cut_byte b [] = none
cut_byte b (c ∷ s) =
    if c == b
    then some ([], s)
    else elim (cut_byte b s) [ none ↦ none | some (l, r) ↦ some (c ∷ l, r) ]

pub cut_byte-append :
    (b : ℕ) (l r : Bytes) → contains_byte b l ≡ false → cut_byte b (l ++ b ∷ r) ≡ some (l, r)
unfolding cut_byte contains_byte
cut_byte-append b [] r h = ground arith
cut_byte-append b (c ∷ l) r h = ground (arith, cut_byte-append b l r)

pub cut_byte-split :
    (b : ℕ) (s l r : Bytes)
    → cut_byte b s ≡ some (l, r)
    → (s ≡ l ++ b ∷ r) × (contains_byte b l ≡ false)
unfolding cut_byte contains_byte
cut_byte-split b [] l r h = absurd (cc h)
cut_byte-split b (c ∷ s) l r h = elim (Bool-cases (c == b)) [
  | inl e ↦ ground arith
  | inr e ↦ elim (Option-cases (cut_byte b s)) [
    | inl f ↦ ground arith
    | inr ((l', r'), f) ↦ ground (arith, cut_byte-split b s l' r' f)
  ]
]

-- fmt.Sprintf("%d", n), for n ≥ 0: the digits, with fuel for their number.
unfoldable pub decimal_onto : ℕ → ℕ → Bytes → Bytes
decimal_onto zero n out = out
decimal_onto (suc fuel) n out =
    let out' = (48 + n % 10) ∷ out in
    let rest = decimal_onto fuel (n / 10) out' in if ltb n 10 then out' else rest

unfoldable pub decimal : ℕ → Bytes
unfolding decimal_onto
decimal n = decimal_onto (suc n) n []

-- strings.ToLower, over ASCII.
unfoldable pub to_lower : Bytes → Bytes
to_lower [] = []
to_lower (c ∷ s) = (if leb b'A' c && leb c b'Z' then c + 32 else c) ∷ to_lower s

-- strings.ReplaceAll(s, string(old), string(new)), for single bytes.
unfoldable pub replace_byte : ℕ → ℕ → Bytes → Bytes
replace_byte old new [] = []
replace_byte old new (c ∷ s) = (if c == old then new else c) ∷ replace_byte old new s

-- Is the string one of the list?
unfoldable pub contains_string : List Bytes → Bytes → Bool
contains_string [] s = false
contains_string (v ∷ vs) s = if bytes_eq v s then true else contains_string vs s

pub contains_string-append :
    (ss ts : List Bytes) (x : Bytes)
    → contains_string (ss ++ ts) x ≡ (contains_string ss x || contains_string ts x)
unfolding contains_string
contains_string-append [] ts x = refl
contains_string-append (s ∷ ss) ts x = ground (arith, contains_string-append ss ts x)
