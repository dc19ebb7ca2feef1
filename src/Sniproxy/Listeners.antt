-- ===== src/Sniproxy/Listeners.antt =====
-- talos-edge-router/main.go and router.go: the listeners of the command line, and the router that is
-- made for them.
pub mod RoundTrip
use kubernetes_switchcloud.Base.{
  ℕ, zero, suc, ◌+◌, ◌*◌, ◌-◌, Bool, true, false, not, ◌&&◌, ◌||◌, List, [], ◌∷◌, ◌++◌, Option,
  none, some, Bytes, lit, is_empty, decimal, cut_byte, bytes_key, insert, length, ltb, leb,
  if◌then◌else◌, ◌==◌, String,
}
use kubernetes_switchcloud.Sniproxy.Router.{Backend, Router, Table, Tables}

-- Listener
pub record Listener : Type 0 where
  pub name : Bytes
  pub addr : Bytes
  pub label : Bytes
  pub target_port : Bytes

-- targetPortName
unfoldable pub target_port_name : Listener → Bytes
target_port_name l = if not (is_empty l.target_port) then l.target_port else l.name

-- strings.SplitN(s, string(sep), n), for n > 0.
unfoldable pub split_n : ℕ → ℕ → Bytes → List Bytes
split_n sep zero s = []
split_n sep (suc zero) s = s ∷ []
split_n sep (suc (suc n)) s = elim (cut_byte sep s) [
  | none ↦ s ∷ []
  | some (first, rest) ↦ first ∷ split_n sep (suc n) rest
]

-- The number that digits stand for, behind those that have been read.
unfoldable pub digits_value : ℕ → Bytes → Option ℕ
digits_value n [] = some n
digits_value n (c ∷ s) =
    let rest = digits_value (10 * n + (c - 48)) s in if leb 48 c && leb c 57 then rest else none

-- An int.
pub data ℤ : Type 0 where
  pos : ℕ → ℤ
  negsuc : ℕ → ℤ

abbrev pub neg : ℕ → ℤ
neg zero = pos 0
neg (suc n) = negsuc n

abbrev pub digits_of : Bytes → Option ℕ
digits_of [] = none
digits_of (c ∷ s) = digits_value 0 (c ∷ s)

abbrev pub in_range : ℕ → (ℕ → ℤ) → Option ℕ → Option ℤ
in_range limit sign none = none
in_range limit sign (some n) = if ltb n limit then some (sign n) else none

-- strconv.Atoi: an optional sign, digits, and a value of 64 bits.
unfoldable pub atoi : Bytes → Option ℤ
unfolding digits_value
atoi [] = none
atoi (c ∷ s) =
    if c == b'-'
    then in_range 9223372036854775809 neg (digits_of s)
    else if c == b'+'
    then in_range 9223372036854775808 pos (digits_of s)
    else in_range 9223372036854775808 pos (digits_of (c ∷ s))

-- The port, if it is one.
abbrev pub port_of : Option ℤ → Option ℕ
port_of none = none
port_of (some (negsuc n)) = none
port_of (some (pos n)) = if n == 0 || ltb 65535 n then none else some n

pub data FlagError : Type 0 where
  too_few_parts invalid_port empty_field : FlagError

pub data Flag : Type 0 where
  ok : List Listener → Flag
  err : FlagError → Flag

abbrev pub or_absent : List Bytes → Bytes
or_absent [] = []
or_absent (p ∷ ps) = p

abbrev pub listener_of : Bytes → ℕ → Bytes → List Bytes → Listener
listener_of name port label target = record {
  name = name;
  addr = b':' ∷ decimal port;
  label = label;
  target_port = or_absent target;
}

-- Set of listenerFlag, on the parts of its argument, and on the argument.
unfoldable pub set_parts : List Listener → List Bytes → Flag
unfolding atoi
set_parts l [] = err too_few_parts
set_parts l (name ∷ []) = err too_few_parts
set_parts l (name ∷ port ∷ []) = err too_few_parts
set_parts l (name ∷ port ∷ label ∷ target) = elim (port_of (atoi port)) [
  | none ↦ err invalid_port
  | some n ↦
      if is_empty name || is_empty label
      then err empty_field
      else ok (l ++ (listener_of name n label target ∷ []))
]

unfoldable pub set_flag : List Listener → Bytes → Flag
unfolding set_parts split_n
set_flag l v = set_parts l (split_n b':' 4 v)

-- The loop of NewRouter over the listeners.
unfoldable pub add_listeners : List Listener → Router → Router
unfolding target_port_name
add_listeners [] r = r
add_listeners (l ∷ ls) r = add_listeners ls (record r {
  backends = insert l.label [] r.backends;
  port_by_label = insert l.label (target_port_name l) r.port_by_label;
})

-- NewRouter, before its informer is started: none without listeners.
unfoldable pub new_router : List Listener → Option Router
unfolding add_listeners
new_router [] = none
new_router (l ∷ ls) =
    some (add_listeners (l ∷ ls) (record { backends = []; owned = []; port_by_label = [] }))

-- count
unfoldable pub count : Tables → ℕ
count [] = 0
count ((label, table) ∷ tables) = length table + count tables

-- The object of an informer's event.
pub data Object : Type 0 where
  service : Backend → Object
  final_state_unknown : Object → Object
  other : Object

-- toService
unfoldable pub to_service : Object → Option Backend
to_service (service svc) = some svc
to_service (final_state_unknown (service svc)) = some svc
to_service (final_state_unknown (final_state_unknown o)) = none
to_service (final_state_unknown other) = none
to_service other = none
