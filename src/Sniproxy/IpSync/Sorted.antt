-- ===== src/Sniproxy/IpSync/Sorted.antt =====
-- ipsync.go: lists of strings in order, without duplicates.
use kubernetes_switchcloud.Base.{
  true, false, ◌||◌, List, [], ◌∷◌, Bytes, bytes_eq, bytes_eq_iff, contains_string, All, All-map,
  ◌≡◌, refl, arith, Bool-cases, inl, inr,
}
use kubernetes_switchcloud.Sniproxy.IpSync.{bytes_leb, insert_sorted, sort_strings}

pub bytes_leb_total : (s t : Bytes) → bytes_leb s t ≡ false → bytes_leb t s ≡ true
unfolding bytes_leb
bytes_leb_total [] t h = absurd (cc h)
bytes_leb_total (x ∷ s) [] h = refl
bytes_leb_total (x ∷ s) (y ∷ t) h = ground (arith, h, bytes_leb_total s t)

pub bytes_leb_trans :
    (s t u : Bytes) → bytes_leb s t ≡ true → bytes_leb t u ≡ true → bytes_leb s u ≡ true
unfolding bytes_leb
bytes_leb_trans [] t u h k = refl
bytes_leb_trans (x ∷ s) [] u h k = absurd (cc h)
bytes_leb_trans (x ∷ s) (y ∷ t) [] h k = absurd (cc k)
bytes_leb_trans (x ∷ s) (y ∷ t) (z ∷ u) h k = ground (arith, h, k, bytes_leb_trans s t u)

pub bytes_leb_antisym : (s t : Bytes) → bytes_leb s t ≡ true → bytes_leb t s ≡ true → s ≡ t
unfolding bytes_leb
bytes_leb_antisym [] [] h k = refl
bytes_leb_antisym [] (y ∷ t) h k = absurd (cc k)
bytes_leb_antisym (x ∷ s) [] h k = absurd (cc h)
bytes_leb_antisym (x ∷ s) (y ∷ t) h k = ground (arith, h, k, bytes_leb_antisym s t)

-- Strictly ascending: sorted, and without duplicates.
abbrev pub IsBelow : Bytes → Bytes → Type 0
IsBelow s t = (bytes_leb s t ≡ true) × (bytes_eq s t ≡ false)

abbrev pub IsAscending : List Bytes → Type 0
IsAscending [] = Unit
IsAscending (s ∷ ss) = All (IsBelow s) ss × IsAscending ss

pub contains_string-insert_sorted :
    (s : Bytes) (ss : List Bytes) (x : Bytes)
    → contains_string (insert_sorted s ss) x ≡ (bytes_eq s x || contains_string ss x)
unfolding contains_string insert_sorted
contains_string-insert_sorted s [] x = ground arith
contains_string-insert_sorted s (t ∷ ss) x = ground (arith, contains_string-insert_sorted s ss x)

pub contains_string-sort_strings :
    (ss : List Bytes) (x : Bytes) → contains_string (sort_strings ss) x ≡ contains_string ss x
unfolding contains_string sort_strings
contains_string-sort_strings [] x = refl
contains_string-sort_strings (s ∷ ss) x =
    ground (
      arith,
      contains_string-insert_sorted s (sort_strings ss) x,
      contains_string-sort_strings ss x,
    )

-- No string stands twice.
abbrev pub IsDistinct : List Bytes → Type 0
IsDistinct [] = Unit
IsDistinct (s ∷ ss) = (contains_string ss s ≡ false) × IsDistinct ss

pub All-insert_sorted :
    (P : Bytes → Type 0) (s : Bytes) (ss : List Bytes) → P s → All P ss → All P (insert_sorted s ss)
unfolding insert_sorted
All-insert_sorted P s [] p h = (p, tt)
All-insert_sorted P s (t ∷ ss) p h = elim (Bool-cases (bytes_leb s t)) [
  | inl e ↦ rw e (p, h)
  | inr e ↦ rw e (h.0, All-insert_sorted P s ss p h.1)
]

pub insert_sorted-IsAscending :
    (s : Bytes) (ss : List Bytes)
    → contains_string ss s ≡ false
    → IsAscending ss
    → IsAscending (insert_sorted s ss)
unfolding insert_sorted contains_string
insert_sorted-IsAscending s [] n h = (tt, tt)
insert_sorted-IsAscending s (t ∷ ss) n h = elim (Bool-cases (bytes_leb s t)) [
  | inl e ↦
      let below : IsBelow s t = (e, ground (arith, n, bytes_eq_iff s t, bytes_eq_iff t s)) in
      rw e (
        (
          below,
          All-map (IsBelow t) (IsBelow s)
              (λ u b. (
                bytes_leb_trans s t u e b.0,
                ground
                    (arith, b, e, below, bytes_eq_iff s u, bytes_eq_iff s t, bytes_leb_antisym s t),
              ))
              ss h.0,
        ),
        h,
      )
  | inr e ↦ rw e (
    All-insert_sorted (IsBelow t) s ss
        (bytes_leb_total s t e, ground (arith, n, bytes_eq_iff s t, bytes_eq_iff t s)) h.0,
    insert_sorted-IsAscending s ss (ground (arith, n)) h.1,
  )
]

pub sort_strings-IsAscending : (ss : List Bytes) → IsDistinct ss → IsAscending (sort_strings ss)
unfolding sort_strings
sort_strings-IsAscending [] h = tt
sort_strings-IsAscending (s ∷ ss) h =
    insert_sorted-IsAscending s (sort_strings ss)
      (ground (arith, h.0, contains_string-sort_strings ss s)) (sort_strings-IsAscending ss h.1)

-- A list that is sorted stays as it is.
pub insert_sorted-first :
    (s : Bytes) (ss : List Bytes) → All (IsBelow s) ss → insert_sorted s ss ≡ s ∷ ss
unfolding insert_sorted
insert_sorted-first s [] h = refl
insert_sorted-first s (t ∷ ss) h = rw h.0.0 refl

pub sort_strings-sorted : (ss : List Bytes) → IsAscending ss → sort_strings ss ≡ ss
unfolding sort_strings
sort_strings-sorted [] h = refl
sort_strings-sorted (s ∷ ss) h = rw (sort_strings-sorted ss h.1) (insert_sorted-first s ss h.0)
