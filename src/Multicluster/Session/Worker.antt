-- ===== src/Multicluster/Session/Worker.antt =====
-- session.go: what becomes of the items that the queue hands to a worker.
use kubernetes_switchcloud.Base.{
  ℕ, zero, suc, Bool, true, false, not, List, [], ◌∷◌, ◌++◌, map, Option, none, some, keep_if, ◌≡◌,
  refl, ap,
}
use kubernetes_switchcloud.Cloud.Types.{Result, ok, err}
use kubernetes_switchcloud.Multicluster.Session.{
  Request, QueueCall, add, add_rate_limited, add_after, forget, done, process_item, run_worker,
}

abbrev pub Outcome : Type 0
Outcome = Request × Result ℕ

-- The items that Get hands out before the shutdown.
unfoldable pub handed_out : List (Option Outcome) → List Outcome
handed_out [] = []
handed_out (none ∷ gets) = []
handed_out (some o ∷ gets) = o ∷ handed_out gets

abbrev pub has_failed : Outcome → Bool
has_failed (item, err e) = true
has_failed (item, ok n) = false

abbrev pub wants_delay : Outcome → Bool
wants_delay (item, err e) = false
wants_delay (item, ok zero) = false
wants_delay (item, ok (suc n)) = true

-- The items of one kind of call, in order.
abbrev pub of_done : QueueCall → List Request
of_done (done r) = r ∷ []
of_done (add r) = []
of_done (add_rate_limited r) = []
of_done (add_after r n) = []
of_done (forget r) = []

abbrev pub of_retry : QueueCall → List Request
of_retry (done r) = []
of_retry (add r) = []
of_retry (add_rate_limited r) = r ∷ []
of_retry (add_after r n) = []
of_retry (forget r) = []

abbrev pub of_delay : QueueCall → List Request
of_delay (done r) = []
of_delay (add r) = []
of_delay (add_rate_limited r) = []
of_delay (add_after r n) = r ∷ []
of_delay (forget r) = []

abbrev pub of_forget : QueueCall → List Request
of_forget (done r) = []
of_forget (add r) = []
of_forget (add_rate_limited r) = []
of_forget (add_after r n) = []
of_forget (forget r) = r ∷ []

unfoldable pub gather : (QueueCall → List Request) → List QueueCall → List Request
gather f [] = []
gather f (c ∷ calls) = f c ++ gather f calls

abbrev pub items : List Outcome → List Request
items outcomes = map (λ o. o.0) outcomes

-- Up to the shutdown, a worker reports each item that it was handed as done, once and in order. It
-- adds again, at the limited rate, just those that Reconcile failed on, forgets all the others, and
-- adds after a delay just those for which Reconcile asked for one.
pub run_worker_accounts :
    (gets : List (Option Outcome))
    → (gather of_done (run_worker gets) ≡ items (handed_out gets))
      × (gather of_retry (run_worker gets) ≡ items (keep_if has_failed (handed_out gets)))
      × (gather of_forget (run_worker gets)
          ≡ items (keep_if (λ o. not (has_failed o)) (handed_out gets)))
      × (gather of_delay (run_worker gets) ≡ items (keep_if wants_delay (handed_out gets)))
unfolding run_worker process_item handed_out gather keep_if
run_worker_accounts [] = (refl, refl, refl, refl)
run_worker_accounts (none ∷ gets) = (refl, refl, refl, refl)
run_worker_accounts (some (item, err e) ∷ gets) =
    let (d, r, f, a) = run_worker_accounts gets in (ap (◌∷◌ item) d, ap (◌∷◌ item) r, f, a)
run_worker_accounts (some (item, ok zero) ∷ gets) =
    let (d, r, f, a) = run_worker_accounts gets in (ap (◌∷◌ item) d, r, ap (◌∷◌ item) f, a)
run_worker_accounts (some (item, ok (suc n)) ∷ gets) =
    let (d, r, f, a) = run_worker_accounts gets in
    (ap (◌∷◌ item) d, r, ap (◌∷◌ item) f, ap (◌∷◌ item) a)
