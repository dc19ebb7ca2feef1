-- ===== src/Cloud/Action.antt =====
-- Code that makes calls and may return an error: a function of the log of calls made so far.
use kubernetes_switchcloud.Base.{ℕ, Bool, true, false, List, [], ◌∷◌, ◌++◌, Bytes, lit}
use kubernetes_switchcloud.Cloud.Types.{Error, Result, ok, err, Call, Log}

abbrev pub M : Type 0 → Type 0
M A = Log → Result A × Log

abbrev pub return : {A : Type 0} → A → M A
return a log = (ok a, log)

abbrev pub fail : {A : Type 0} → Error → M A
fail e log = (err e, log)

-- errors.New
pub new_error : Bytes → Error
new_error text = record { not_found = false; message = text }

abbrev pub and_then : {A B : Type 0} → Result A × Log → (A → M B) → Result B × Log
and_then (ok a, log) f = f a log
and_then (err e, log) f = (err e, log)

infixl 5 ◌>>=◌ ◌>>◌
unfoldable pub ◌>>=◌ : {A B : Type 0} → M A → (A → M B) → M B
◌>>=◌ m f log = and_then (m log) f

abbrev pub ◌>>◌ : {B : Type 0} → M (Unit {0}) → M B → M B
m >> k = m >>= λ _. k

-- One request: it is logged, and answered by what was logged before it.
unfoldable pub request : {A : Type 0} → Call → (Log → Result A) → M A
request c answer log = (answer log, c ∷ log)

-- The error as a value, for code that looks at it.
abbrev pub caught : {A : Type 0} → Result A × Log → Result (Result A) × Log
caught (r, log) = (ok r, log)

unfoldable pub try : {A : Type 0} → M A → M (Result A)
try m log = caught (m log)

-- errors.Wrap(err, text): the text is put before the message. What IsNotFound sees, the error at
-- the root, stays.
pub wrapped : Bytes → Error → Error
wrapped text e = record e { message = text ++ lit ": " ++ e.message }

abbrev pub rewrapped : {A : Type 0} → Bytes → Result A × Log → Result A × Log
rewrapped text (ok a, log) = (ok a, log)
rewrapped text (err e, log) = (err (wrapped text e), log)

unfoldable pub wrap : {A : Type 0} → Bytes → M A → M A
wrap text m log = rewrapped text (m log)

-- A result that is at hand, and a listing: the request itself does not fail, its pages may.
abbrev pub lift : {A : Type 0} → Result A → M A
lift r log = (r, log)

abbrev pub answered : {A : Type 0} → A → Result A
answered a = ok a

unfoldable pub listing : {A : Type 0} → Call → (Log → A) → M A
listing c answer log = (ok (answer log), c ∷ log)

-- for _, x := range xs { if err := f(x); err != nil { return err } }
unfoldable pub for_each : {A : Type 0} → (A → M (Unit {0})) → List A → M (Unit {0})
for_each f [] = return tt
for_each f (x ∷ xs) = let rest = for_each f xs in f x >> rest

-- if b { m }
abbrev pub when : Bool → M (Unit {0}) → M (Unit {0})
when true m = m
when false m = return tt

-- The order of the next range over a map.
unfoldable pub map_order : (Log → ℕ → ℕ) → M (ℕ → ℕ)
map_order order log = (ok (order log), log)
