-- ===== src/Cloud/Hoare.antt =====
-- Triples on actions: from a log with `Pre` the action ends with `Post` of its result and its log,
-- or with `Err` of its error's log.
use kubernetes_switchcloud.Base.{
  ℕ, Bool, true, false, List, [], ◌∷◌, Bytes, ◌≡◌, refl, All, if◌then◌else◌, Option, none, some,
}
use kubernetes_switchcloud.Cloud.Types.{Error, Result, ok, err, Call, Log}
use kubernetes_switchcloud.Cloud.Action.{
  M, and_then, ◌>>=◌, request, caught, try, rewrapped, wrap, listing, for_each, when, map_order,
}

abbrev pub Outcome : {A : Type 0} → (A → Log → Type 0) → (Log → Type 0) → Result A × Log → Type 0
Outcome Post Err (ok a, log) = Post a log
Outcome Post Err (err e, log) = Err log

-- A record, so that its parts can be read off its type.
pub record Triple {A : Type 0} (Pre : Log → Type 0) (m : M A) (Post : A → Log → Type 0)
    (Err : Log → Type 0) : Type 0 where
  pub run : (log : Log) → Pre log → Outcome Post Err (m log)

module _ {A B : Type 0} (Mid : A → Log → Type 0) (Post : B → Log → Type 0)
    (Err : Log → Type 0) where
  and_then_rule :
      (r : Result A × Log) (f : A → M B)
      → Outcome Mid Err r
      → ((a : A) → Triple (Mid a) (f a) Post Err)
      → Outcome Post Err (and_then r f)
  and_then_rule (ok a, log) f h hf = (hf a).run log h
  and_then_rule (err e, log) f h hf = h

module _ {A : Type 0} (Post : A → Log → Type 0) (Err : Log → Type 0) where
  rewrapped_rule :
      (text : Bytes) (r : Result A × Log) → Outcome Post Err r → Outcome Post Err (rewrapped text r)
  rewrapped_rule text (ok a, log) h = h
  rewrapped_rule text (err e, log) h = h

module _ {A B : Type 0} {Pre : Log → Type 0} {Mid : A → Log → Type 0} {Post : B → Log → Type 0}
    {Err : Log → Type 0} where
  pub bind_rule :
      {m : M A} {f : A → M B}
      → Triple Pre m Mid Err
      → ((a : A) → Triple (Mid a) (f a) Post Err)
      → Triple Pre (m >>= f) Post Err
  unfolding ◌>>=◌
  bind_rule {m} {f} hm hf = record {
    run = λ log h. and_then_rule Mid Post Err (m log) f (hm.run log h) hf;
  }

module _ {A : Type 0} {Pre : Log → Type 0} {Post : A → Log → Type 0} {Err : Log → Type 0} where
  pub wrap_rule :
      {m : M A} (text : Bytes) → Triple Pre m Post Err → Triple Pre (wrap text m) Post Err
  unfolding wrap
  wrap_rule {m} text hm = record {
    run = λ log h. rewrapped_rule Post Err text (m log) (hm.run log h);
  }

-- Every call that the action makes meets `P`, and what it returns meets `Q`.
abbrev pub Ensures : {A : Type 0} → (Call → Type 0) → M A → (A → Type 0) → Type 0
Ensures P m Q = Triple (All P) m (λ a log. Q a × All P log) (All P)

abbrev pub Any : {A : Type 0} → A → Type 0
Any a = Unit

abbrev pub OkMeets : {A : Type 0} → (A → Type 0) → Result A → Type 0
OkMeets Q (ok a) = Q a
OkMeets Q (err e) = Unit

pub OkMeets-Any : {A : Type 0} (r : Result A) → OkMeets Any r
OkMeets-Any (ok a) = tt
OkMeets-Any (err e) = tt

module _ {A : Type 0} (P : Call → Type 0) (Q : A → Type 0) where
  lift-Outcome :
      (r : Result A) (log : Log)
      → OkMeets Q r
      → All P log
      → Outcome (λ a log'. Q a × All P log') (All P) (r, log)
  lift-Outcome (ok a) log q h = (q, h)
  lift-Outcome (err e) log q h = h

  caught-Outcome :
      (r : Result A × Log)
      → Outcome (λ a log. Q a × All P log) (All P) r
      → Outcome (λ a log. OkMeets Q a × All P log) (All P) (caught r)
  caught-Outcome (ok a, log) h = h
  caught-Outcome (err e, log) h = (tt, h)

module _ {P : Call → Type 0} {A : Type 0} {Q : A → Type 0} where
  pub return_ensures : (a : A) → Q a → Ensures P (λ log. (ok a, log)) Q
  return_ensures a q = record { run = λ log h. (q, h) }

  pub fail_ensures : (e : Error) → Ensures P (λ log. (err e, log)) Q
  fail_ensures e = record { run = λ log h. h }

  pub lift_ensures : (r : Result A) → OkMeets Q r → Ensures P (λ log. (r, log)) Q
  lift_ensures r q = record { run = λ log h. lift-Outcome P Q r log q h }

  pub request_ensures :
      (c : Call) (answer : Log → Result A)
      → P c
      → ((log : Log) → OkMeets Q (answer log))
      → Ensures P (request c answer) Q
  unfolding request
  request_ensures c answer p q = record {
    run = λ log h. lift-Outcome P Q (answer log) (c ∷ log) (q log) (p, h);
  }

  pub listing_ensures :
      (c : Call) (answer : Log → A)
      → P c
      → ((log : Log) → Q (answer log))
      → Ensures P (listing c answer) Q
  unfolding listing
  listing_ensures c answer p q = record { run = λ log h. (q log, (p, h)) }

  pub weaken_ensures :
      {m : M A} {R : A → Type 0} → Ensures P m R → ((a : A) → R a → Q a) → Ensures P m Q
  weaken_ensures {m} {R} hm w = record { run = λ log h. go (m log) (hm.run log h) }
    where
      go :
          (r : Result A × Log)
          → Outcome (λ a log. R a × All P log) (All P) r
          → Outcome (λ a log. Q a × All P log) (All P) r
      go (ok a, log) h = (w a h.0, h.1)
      go (err e, log) h = h

  pub try_ensures : {m : M A} → Ensures P m Q → Ensures P (try m) (OkMeets Q)
  unfolding try
  try_ensures {m} hm = record { run = λ log h. caught-Outcome P Q (m log) (hm.run log h) }

module _ {P : Call → Type 0} {A B : Type 0} {Q : A → Type 0} {R : B → Type 0} where
  pub bind_ensures :
      {m : M A} {f : A → M B}
      → Ensures P m Q
      → ((a : A) → Q a → Ensures P (f a) R)
      → Ensures P (m >>= f) R
  bind_ensures hm hf = bind_rule hm (λ a. record { run = λ log h. (hf a h.0).run log h.1 })

module _ {P : Call → Type 0} where
  pub for_each_ensures :
      {A : Type 0} {f : A → M (Unit {0})} {Q : A → Type 0} (xs : List A)
      → All Q xs
      → ((x : A) → Q x → Ensures P (f x) Any)
      → Ensures P (for_each f xs) Any
  unfolding for_each
  for_each_ensures [] h hf = return_ensures tt tt
  for_each_ensures (x ∷ xs) h hf = bind_ensures (hf x h.0) (λ _ _. for_each_ensures xs h.1 hf)

  pub when_ensures :
      {m : M (Unit {0})} (b : Bool) → (b ≡ true → Ensures P m Any) → Ensures P (when b m) Any
  when_ensures true h = h refl
  when_ensures false h = return_ensures tt tt

module _ {P : Call → Type 0} {A : Type 0} {Q : A → Type 0} {m n : M A} where
  pub if_ensures :
      (b : Bool)
      → (b ≡ true → Ensures P m Q)
      → (b ≡ false → Ensures P n Q)
      → Ensures P (if b then m else n) Q
  if_ensures true h k = h refl
  if_ensures false h k = k refl

module _ {P : Call → Type 0} {A : Type 0} where
  pub request-Any : (c : Call) (answer : Log → Result A) → P c → Ensures P (request c answer) Any
  request-Any c answer p = request_ensures c answer p (λ log. OkMeets-Any (answer log))

  pub Any-ensures : {m : M A} {Q : A → Type 0} → Ensures P m Q → Ensures P m Any
  Any-ensures hm = weaken_ensures hm (λ a q. tt)

module _ {P : Call → Type 0} {A B : Type 0} {Q : B → Type 0} {m : M B} {f : A → M B} where
  pub option_ensures :
      (o : Option A)
      → (o ≡ none → Ensures P m Q)
      → ((a : A) → o ≡ some a → Ensures P (f a) Q)
      → Ensures P (elim o [ none ↦ m | some a ↦ f a ]) Q
  option_ensures none h k = h refl
  option_ensures (some a) h k = k a refl

module _ {P : Call → Type 0} where
  pub map_order_ensures : (order : Log → ℕ → ℕ) → Ensures P (map_order order) Any
  unfolding map_order
  map_order_ensures order = record { run = λ log h. (tt, h) }

-- The value has been returned by a run of the action.
abbrev pub Returned : {A : Type 0} → M A → A → Type 0
Returned m a = (log log' : Log) × (m log ≡ (ok a, log'))

module _ {P : Call → Type 0} {A : Type 0} {Q : A → Type 0} where
  pub Returned-ensures : {m : M A} → Ensures P m Q → Ensures P m (λ a. Q a × Returned m a)
  Returned-ensures {m} hm = record { run = λ log h. go log (m log) refl (hm.run log h) }
    where
      go :
          (log : Log) (r : Result A × Log)
          → m log ≡ r
          → Outcome (λ a l. Q a × All P l) (All P) r
          → Outcome (λ a l. (Q a × Returned m a) × All P l) (All P) r
      go log (ok a, log') e h = ((h.0, (log, log', e)), h.1)
      go log (err x, log') e h = h

-- With an error or without, all the calls of the log meet the predicate.
pub calls_meet :
    {A : Type 0} (P : Call → Type 0) (Q : A → Type 0) (r : Result A × Log)
    → Outcome (λ a log. Q a × All P log) (All P) r
    → All P r.1
calls_meet P Q (ok a, log) h = h.1
calls_meet P Q (err e, log) h = h
