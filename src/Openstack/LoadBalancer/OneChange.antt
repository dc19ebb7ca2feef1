-- ===== src/Openstack/LoadBalancer/OneChange.antt =====
-- loadbalancer.go: how many changes one run of SyncListenersAndMembers makes.
use kubernetes_switchcloud.Base.{
  ℕ, suc, ◌≤◌, Bool, true, false, not, List, [], ◌∷◌, none, some, Bytes, bytes_eq, contains_string,
  if◌then◌else◌, lookup, bytes_key, map, Option-cases, inl, inr, ◌≡◌, refl, arith,
}
use kubernetes_switchcloud.Cloud.Types.{
  Api, Call, Log, Service, LoadBalancer, Listener, ServicePort, Result, ok, err, create_listener,
  delete_listener, create_pool, batch_update_members,
}
use kubernetes_switchcloud.Cloud.Action.{M, request, listing, map_order}
use kubernetes_switchcloud.Cloud.Hoare.{Triple, Outcome, bind_rule, wrap_rule}
use kubernetes_switchcloud.Openstack.LoadBalancer.{
  find_pool_for_listener, ensure_pool, sync_members, drift, create_listener_for, sync_ports,
  drop_stale, sync_listeners_and_members, listener_name, by_name_onto, status_active,
}

-- A call that puts the load balancer into PENDING_UPDATE.
abbrev pub is_change : Call → Bool
is_change (create_listener _) = true
is_change (delete_listener _) = true
is_change (create_pool _) = true
is_change (batch_update_members _ _) = true
is_change _ = false

abbrev pub changes : Log → ℕ
changes [] = 0
changes (c ∷ log) = if is_change c then suc (changes log) else changes log

module _ (n : ℕ) where
  abbrev Unchanged : Log → Type 0
  Unchanged log = changes log ≡ n

  abbrev OneMore : Log → Type 0
  OneMore log = changes log ≤ suc n

  -- Where the flag is set, one change may have been made, and where it is not, none has.
  abbrev Flagged : Bool → Log → Type 0
  Flagged true log = OneMore log
  Flagged false log = Unchanged log

  abbrev Reads : {A : Type 0} → M A → Type 0
  Reads m = Triple Unchanged m (λ _. Unchanged) OneMore

  abbrev Changes : {A : Type 0} → M A → Type 0
  Changes m = Triple Unchanged m (λ _. OneMore) OneMore

  abbrev Syncs : M Bool → Type 0
  Syncs m = Triple Unchanged m Flagged OneMore

  lift-Outcome :
      {A : Type 0} (r : Result A) (log : Log)
      → Unchanged log
      → Outcome (λ _. Unchanged) OneMore (r, log)
  lift-Outcome (ok a) log h = h
  lift-Outcome (err e) log h = omega (arith, h)

  lift-Reads : {A : Type 0} (r : Result A) → Reads (λ log. (r, log))
  lift-Reads r = record { run = λ log h. lift-Outcome r log h }

  change-Outcome :
      {A : Type 0} (r : Result A) (log : Log)
      → OneMore log
      → Outcome (λ _. OneMore) OneMore (r, log)
  change-Outcome (ok a) log h = h
  change-Outcome (err e) log h = h

  request-Changes :
      {A : Type 0} (c : Call) (answer : Log → Result A)
      → is_change c ≡ true
      → Changes (request c answer)
  unfolding request
  request-Changes c answer e = record {
    run = λ log h. change-Outcome (answer log) (c ∷ log) (ground (arith, e, h));
  }

  listing-Reads :
      {A : Type 0} (c : Call) (answer : Log → A) → is_change c ≡ false → Reads (listing c answer)
  unfolding listing
  listing-Reads c answer e = record { run = λ log h. ground (arith, e, h) }

  map_order-Reads : (order : Log → ℕ → ℕ) → Reads (map_order order)
  unfolding map_order
  map_order-Reads order = record { run = λ log h. h }

  after_change :
      {A : Type 0} (b : A) {Post : A → Log → Type 0}
      → ((log : Log) → OneMore log → Post b log)
      → Triple OneMore (λ log. (ok b, log)) Post OneMore
  after_change b p = record { run = λ log h. p log h }

  keeps :
      {A : Type 0} (b : A) {Post : A → Log → Type 0}
      → ((log : Log) → Unchanged log → Post b log)
      → Triple Unchanged (λ log. (ok b, log)) Post OneMore
  keeps b p = record { run = λ log h. p log h }

  if_Syncs : {m k : M Bool} (b : Bool) → Syncs m → Syncs k → Syncs (if b then m else k)
  if_Syncs true hm hk = hm
  if_Syncs false hm hk = hk

  -- What follows a flagged step, where it goes on only if the flag is not set.
  unless_changed :
      {k : M Bool} (b : Bool)
      → Syncs k
      → Triple (Flagged b) (if b then (λ log. (ok true, log)) else k) Flagged OneMore
  unless_changed true hk = record { run = λ log h. h }
  unless_changed false hk = hk

module _ (api : Api) (n : ℕ) where
  sync_members-Syncs :
      (pool_id : Bytes) (node_port : ℕ) (ips : List Bytes) (subnet : Bytes)
      → Syncs n (sync_members api pool_id node_port ips subnet)
  unfolding sync_members
  sync_members-Syncs pool_id node_port ips subnet = bind_rule (listing-Reads n _ _ refl) (λ pages.
      bind_rule (wrap_rule _ (lift-Reads n _)) (λ existing.
        if_Syncs n (not (drift existing node_port ips subnet)) (keeps n false (λ log h. h)) (
          bind_rule (wrap_rule _ (request-Changes n _ _ refl))
            (λ _. after_change n true (λ log h. h)))))

  ensure_pool_syncs :
      (lb_id listener_id : Bytes) (port : ServicePort)
      → Triple
          (Unchanged n)
          (ensure_pool api lb_id listener_id port)
          (λ made. Flagged n made.1)
          (OneMore n)
  unfolding ensure_pool find_pool_for_listener
  ensure_pool_syncs lb_id listener_id port =
      bind_rule (bind_rule (listing-Reads n _ _ refl) (λ pages. lift-Reads n _)) (elim [
        | some p ↦ keeps n (p, false) (λ log h. h)
        | none ↦
            bind_rule (wrap_rule _ (request-Changes n _ _ refl))
              (λ out. after_change n (out, true) (λ log h. h))
      ])

  sync_ports-Syncs :
      (lb_id : Bytes) (by_name : List (Bytes × Listener)) (ips : List Bytes) (subnet : Bytes)
      (ps : List ServicePort)
      → Syncs n (sync_ports api lb_id by_name ips subnet ps)
  unfolding sync_ports create_listener_for
  sync_ports-Syncs lb_id by_name ips subnet [] = keeps n false (λ log h. h)
  sync_ports-Syncs lb_id by_name ips subnet (p ∷ ps) =
      let rest = sync_ports-Syncs lb_id by_name ips subnet ps in
      elim (Option-cases (lookup (listener_name p) by_name)) [
        | inl e ↦
            rw (e, sync_ports)
              (bind_rule (wrap_rule _ (request-Changes n _ _ refl))
                (λ _. after_change n true (λ log h. h)))
        | inr (l, e) ↦
            rw (e, sync_ports)
              (bind_rule (wrap_rule _ (ensure_pool_syncs lb_id l.id p)) (λ made.
                unless_changed n made.1 (
                  bind_rule (wrap_rule _ (sync_members-Syncs made.0.id p.node_port ips subnet))
                    (λ changed. unless_changed n changed rest))))
      ]

  drop_stale-Syncs :
      (keep : List Bytes) (listeners : List (Bytes × Listener))
      → Syncs n (drop_stale api keep listeners)
  unfolding drop_stale
  drop_stale-Syncs keep [] = keeps n false (λ log h. h)
  drop_stale-Syncs keep ((name, l) ∷ rest) =
      if_Syncs n (contains_string keep name) (drop_stale-Syncs keep rest) (
        bind_rule (wrap_rule _ (request-Changes n _ _ refl))
          (λ _. after_change n true (λ log h. h)))

  sync-Syncs :
      (lb : LoadBalancer) (svc : Service) (ips : List Bytes) (subnet : Bytes)
      → Syncs n (sync_listeners_and_members api lb svc ips subnet)
  unfolding sync_listeners_and_members
  sync-Syncs lb svc ips subnet =
      if_Syncs n (not (bytes_eq lb.provisioning_status status_active))
        (keeps n true (λ log h. omega (arith, h)))
        (bind_rule (lift-Reads n _) (λ ports. bind_rule (listing-Reads n _ _ refl) (λ pages.
          bind_rule (wrap_rule _ (lift-Reads n _)) (λ existing.
            bind_rule (sync_ports-Syncs lb.id (by_name_onto [] existing) ips subnet ports)
              (λ pending. unless_changed n pending (
                bind_rule (map_order-Reads n api.order)
                  (λ order. drop_stale-Syncs (map listener_name ports) _)))))))

both_cases :
    (n : ℕ) (r : Result Bool × Log)
    → Outcome (Flagged n) (OneMore n) r
    → (changes r.1 ≤ suc n) × (r.0 ≡ ok false → changes r.1 ≡ n)
both_cases n (ok true, log) h = (h, λ e. absurd (cc e))
both_cases n (ok false, log) h = (omega (arith, h), λ e. h)
both_cases n (err x, log) h = (h, λ e. absurd (cc e))

-- For any answers of Octavia and any calls made before: one run of SyncListenersAndMembers makes at
-- most one call that creates or deletes a listener, creates a pool or sends members, and makes none
-- where it reports that nothing is pending.
pub sync_listeners_and_members-changes :
    (api : Api) (lb : LoadBalancer) (svc : Service) (ips : List Bytes) (subnet : Bytes) (log : Log)
    → (changes (sync_listeners_and_members api lb svc ips subnet log).1 ≤ suc (changes log))
      × ((sync_listeners_and_members api lb svc ips subnet log).0 ≡ ok false
          → changes (sync_listeners_and_members api lb svc ips subnet log).1 ≡ changes log)
sync_listeners_and_members-changes api lb svc ips subnet log =
    both_cases (changes log) (sync_listeners_and_members api lb svc ips subnet log)
      ((sync-Syncs api (changes log) lb svc ips subnet).run log refl)
