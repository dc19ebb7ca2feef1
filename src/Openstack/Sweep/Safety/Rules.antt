-- ===== src/Openstack/Sweep/Safety/Rules.antt =====
-- Rules for the loops and helpers of sweep.go.
use kubernetes_switchcloud.Base.{
  false, ◌≡◌, List, [], ◌∷◌, ◌++◌, Option, some, Bytes, All, contains_byte, cut_byte,
  cut_byte-append, arith, sym, ◌∙◌, ap,
}
use kubernetes_switchcloud.Cloud.Types.{Call, Result, ok, err, Pages, last, page, broken}
use kubernetes_switchcloud.Cloud.Action.{M}
use kubernetes_switchcloud.Cloud.Hoare.{
  Ensures, Any, return_ensures, fail_ensures, bind_ensures, wrap_rule, if_ensures,
}
use kubernetes_switchcloud.Cloud.Pages.{AllPages}
use kubernetes_switchcloud.Openstack.Names.{is_conflict_error}
use kubernetes_switchcloud.Openstack.Sweep.{cache_key, unless_conflict, fold_items, fold_pages}

module _ {P : Call → Type 0} {S A : Type 0} (f : S → A → M S) (Inv : S → Type 0) (Q : A → Type 0)
    (round : (s : S) (x : A) → Inv s → Q x → Ensures P (f s x) Inv) where
  fold_items_ensures : (s : S) (xs : List A) → Inv s → All Q xs → Ensures P (fold_items f s xs) Inv
  unfolding fold_items
  fold_items_ensures s [] i h = return_ensures s i
  fold_items_ensures s (x ∷ xs) i h =
      bind_ensures (round s x i h.0) (λ s' i'. fold_items_ensures s' xs i' h.1)

  pub fold_pages_ensures :
      (s : S) (ps : Pages A) → Inv s → AllPages Q ps → Ensures P (fold_pages f s ps) Inv
  unfolding fold_pages
  fold_pages_ensures s last i h = return_ensures s i
  fold_pages_ensures s (broken e) i h = fail_ensures e
  fold_pages_ensures s (page xs rest) i h =
      bind_ensures (fold_items_ensures s xs i h.0) (λ s' i'. fold_pages_ensures s' rest i' h.1)

pub unless_conflict_ensures :
    (P : Call → Type 0) (text : Bytes) (r : Result (Unit {0}))
    → Ensures P (unless_conflict text r) Any
unfolding unless_conflict
unless_conflict_ensures P text (ok _) = return_ensures tt tt
unless_conflict_ensures P text (err e) =
    if_ensures (is_conflict_error e) (λ _. return_ensures tt tt)
      (λ _. wrap_rule text (fail_ensures e))

-- Two Services of one key are one, if their clusters and namespaces have no slash.
pub cache_key_injective :
    (c n s c' n' s' : Bytes)
    → contains_byte b'/' c ≡ false
    → contains_byte b'/' n ≡ false
    → contains_byte b'/' c' ≡ false
    → contains_byte b'/' n' ≡ false
    → cache_key c n s ≡ cache_key c' n' s'
    → (c ≡ c') × (n ≡ n') × (s ≡ s')
unfolding cache_key
cache_key_injective c n s c' n' s' hc hn hc' hn' e =
    let p = cut_byte-append b'/' c (n ++ (b'/' ∷ s)) hc in
    let p' = cut_byte-append b'/' c' (n' ++ (b'/' ∷ s')) hc' in
    let q = cut_byte-append b'/' n s hn in
    let q' = cut_byte-append b'/' n' s' hn' in
    let first : ◌≡◌ {A = Option (Bytes × Bytes)} (some (c, n ++ (b'/' ∷ s)))
        (some (c', n' ++ (b'/' ∷ s'))) =
      sym p ∙ (ap (cut_byte b'/') e ∙ p') in
    ground arith
