-- ===== src/Sniproxy/IpSync/Debounce.antt =====
-- ipsync.go: the times at which RunIPSyncer syncs.
use kubernetes_switchcloud.Base.{
  ℕ, Bool, true, false, ◌&&◌, List, [], ◌∷◌, Option, none, some, any_of, All, All-map, length, leb,
  ltb, ◌+◌, ◌≤◌, ◌≡◌, refl, sym, subst, ◌⊎◌, inl, inr, arith, Bool-cases, leb→le, le→leb,
}
use kubernetes_switchcloud.Sniproxy.IpSync.{
  sync_debounce_interval, latest, next_start, takes_done, run_ip_syncer,
}

next_start_bounds :
    (event last_sync : ℕ)
    → (last_sync + sync_debounce_interval ≤ next_start event last_sync)
      × (event ≤ next_start event last_sync)
      × (latest event last_sync ≤ next_start event last_sync)
unfolding next_start latest
next_start_bounds event last_sync = ground arith

next_start_monotone :
    (event event' last_sync : ℕ)
    → event ≤ event'
    → next_start event last_sync ≤ next_start event' last_sync
unfolding next_start latest
next_start_monotone event event' last_sync h = ground arith

-- The context is done at the time, or was before.
abbrev pub IsDoneBy : Option ℕ → ℕ → Type 0
IsDoneBy none t = ⊥
IsDoneBy (some d) t = d ≤ t

takes_done-IsDoneBy :
    (cancel : Option ℕ) (tie : Bool) (since at : ℕ)
    → takes_done cancel tie since at ≡ true
    → IsDoneBy cancel at
unfolding takes_done latest
takes_done-IsDoneBy none tie since at h = absurd (cc h)
takes_done-IsDoneBy (some d) tie since at h = ground (arith, h)

IsDoneBy-later : (cancel : Option ℕ) (s t : ℕ) → s ≤ t → IsDoneBy cancel s → IsDoneBy cancel t
IsDoneBy-later none s t le h = h
IsDoneBy-later (some d) s t le h = omega (arith, le, h)

module _ (cancel : Option ℕ) (tie : ℕ → Bool × Bool) (duration : ℕ → ℕ) where
  -- For the first event that has not left the trigger RunIPSyncer returns, and then its context is
  -- done by the time at which the sync would start; or it syncs, and goes on.
  abbrev Round : ℕ → ℕ → List ℕ → List (ℕ × ℕ) → Type 0
  Round last_sync event events run =
      let start = next_start event last_sync in
      let end = start + duration (length events) in
      ((run ≡ []) × IsDoneBy cancel start)
      ⊎ (run ≡ (start, end) ∷ run_ip_syncer cancel tie duration start end events)

  round :
      (drained last_sync event : ℕ) (events : List ℕ)
      → leb event drained ≡ false
      → Round last_sync event events
          (run_ip_syncer cancel tie duration drained last_sync (event ∷ events))
  unfolding run_ip_syncer
  round drained last_sync event events e =
      let received = latest event last_sync in
      let start = next_start event last_sync in
      let (idle, waiting) = tie (length events) in
      let later = (next_start_bounds event last_sync).2 in
      elim (Bool-cases (takes_done cancel idle last_sync received)) [
        | inl f ↦ inl (
          rw (e, f, run_ip_syncer) refl,
          IsDoneBy-later cancel received start later
              (takes_done-IsDoneBy cancel idle last_sync received f),
        )
        | inr f ↦
            elim (Bool-cases (ltb received start && takes_done cancel waiting received start)) [
              | inl g ↦ inl (
                rw (e, f, g, run_ip_syncer) refl,
                takes_done-IsDoneBy cancel waiting received start (ground (arith, g)),
              )
              | inr g ↦ inr (rw (e, f, g, run_ip_syncer) refl)
            ]
      ]

-- Each sync starts the interval or more behind the end of the one before.
abbrev pub IsSpaced : ℕ → List (ℕ × ℕ) → Type 0
IsSpaced last_sync [] = Unit
IsSpaced last_sync ((start, end) ∷ syncs) =
    (last_sync + sync_debounce_interval ≤ start) × (start ≤ end) × IsSpaced end syncs

-- However long the syncs take, and whenever the context is done, each sync starts at least the
-- interval behind the end of the one before, and none ends before it starts.
pub run_ip_syncer-IsSpaced :
    (cancel : Option ℕ) (tie : ℕ → Bool × Bool) (duration : ℕ → ℕ) (drained last_sync : ℕ)
    → (events : List ℕ)
    → IsSpaced last_sync (run_ip_syncer cancel tie duration drained last_sync events)
unfolding run_ip_syncer
run_ip_syncer-IsSpaced cancel tie duration drained last_sync [] = tt
run_ip_syncer-IsSpaced cancel tie duration drained last_sync (event ∷ events) =
    let start = next_start event last_sync in
    let end = start + duration (length events) in
    elim (Bool-cases (leb event drained)) [
      | inl e ↦
          rw (e, run_ip_syncer)
            (run_ip_syncer-IsSpaced cancel tie duration drained last_sync events)
      | inr e ↦ elim (round cancel tie duration drained last_sync event events e) [
        | inl r ↦ subst (IsSpaced last_sync) (sym r.0) tt
        | inr r ↦ subst (IsSpaced last_sync) (sym r) (
          (next_start_bounds event last_sync).0,
          omega arith,
          run_ip_syncer-IsSpaced cancel tie duration start end events,
        )
      ]
    ]

-- An event is seen by a sync that starts when it has come, or later.
abbrev pub is_seen : List (ℕ × ℕ) → ℕ → Bool
is_seen syncs event = any_of (λ s. leb event s.0) syncs

-- The end of the last sync.
abbrev pub last_end : ℕ → List (ℕ × ℕ) → ℕ
last_end last_sync [] = last_sync
last_end last_sync (s ∷ syncs) = last_end s.1 syncs

-- The events in the order in which they come.
abbrev pub InOrder : List ℕ → Type 0
InOrder [] = Unit
InOrder (event ∷ events) = All (λ e. event ≤ e) events × InOrder events

-- The event has left the trigger before, or a sync sees it, or the context is done by the time at
-- which the sync for it would start, behind the last sync that there was.
abbrev pub IsCovered : Option ℕ → ℕ → ℕ → List (ℕ × ℕ) → ℕ → Type 0
IsCovered cancel drained last_sync syncs event =
    (event ≤ drained)
    ⊎ ((is_seen syncs event ≡ true) ⊎ IsDoneBy cancel (next_start event (last_end last_sync syncs)))

seen_later :
    (cancel : Option ℕ) (start end last_sync drained : ℕ) (syncs : List (ℕ × ℕ)) (event : ℕ)
    → IsCovered cancel start end syncs event
    → IsCovered cancel drained last_sync ((start, end) ∷ syncs) event
unfolding any_of
seen_later cancel start end last_sync drained syncs event (inl h) =
    inr (inl (rw (le→leb event start h) refl))
seen_later cancel start end last_sync drained syncs event (inr (inl h)) =
    inr (inl (ground (arith, h)))
seen_later cancel start end last_sync drained syncs event (inr (inr h)) = inr (inr h)

-- Of events that come in order none is lost but by the end of the context: each that has not left
-- the trigger before is followed by a sync that starts when it has come, or later, or the context is
-- cancel by the time at which the sync for it would start, behind the last sync.
pub run_ip_syncer_covers :
    (cancel : Option ℕ) (tie : ℕ → Bool × Bool) (duration : ℕ → ℕ) (drained last_sync : ℕ)
    → (events : List ℕ) → InOrder events
    → All
        (IsCovered cancel drained last_sync
          (run_ip_syncer cancel tie duration drained last_sync events))
        events
unfolding run_ip_syncer any_of
run_ip_syncer_covers cancel tie duration drained last_sync [] h = tt
run_ip_syncer_covers cancel tie duration drained last_sync (event ∷ events) h =
    let start = next_start event last_sync in
    let end = start + duration (length events) in
    let run = run_ip_syncer cancel tie duration drained last_sync (event ∷ events) in
    let Covers : List (ℕ × ℕ) → Type 0 =
      λ syncs. All (IsCovered cancel drained last_sync syncs) (event ∷ events) in
    elim (Bool-cases (leb event drained)) [
      | inl e ↦
          let same : run ≡ run_ip_syncer cancel tie duration drained last_sync events =
            rw (e, run_ip_syncer) refl in
          subst Covers (sym same) (
            inl (leb→le event drained e),
            run_ip_syncer_covers cancel tie duration drained last_sync events h.1,
          )
      | inr e ↦ elim (round cancel tie duration drained last_sync event events e) [
        | inl r ↦ subst Covers (sym r.0) (
          inr (inr r.1),
          All-map (λ e. event ≤ e) (IsCovered cancel drained last_sync [])
              (λ x le. inr (
                inr (
                  IsDoneBy-later cancel start (next_start x last_sync)
                    (next_start_monotone event x last_sync le) r.1)))
              events h.0,
        )
        | inr r ↦
            let after = run_ip_syncer cancel tie duration start end events in
            subst Covers (sym r) (
              inr (inl (rw (le→leb event start (next_start_bounds event last_sync).1) refl)),
              All-map (IsCovered cancel start end after)
                  (IsCovered cancel drained last_sync ((start, end) ∷ after))
                  (seen_later cancel start end last_sync drained after) events
                  (run_ip_syncer_covers cancel tie duration start end events h.1),
            )
      ]
    ]
