-- ===== src/Openstack/LoadBalancer/Members.antt =====
-- loadbalancer.go: what it means that syncMembers finds nothing to change.
use kubernetes_switchcloud.Base.{
  ℕ, Bool, true, false, not, ◌||◌, List, [], ◌∷◌, some, Bytes, bytes_eq, bytes_eq_iff, bytes_key,
  lookup, insert, lookup-insert, any_of, All, All-insert, All-of_In, In, here, there, length, ◌==◌,
  ==→eq, ◌≡◌, refl, sym, subst, arith, Bool-cases, Option-cases, inl, inr,
}
use kubernetes_switchcloud.Cloud.Types.{Member}
use kubernetes_switchcloud.Openstack.LoadBalancer.{address_set, members_by_ip, differs, drift}

-- What is found in a map meets what all its entries meet.
lookup-All :
    {V : Type 0} (P : Bytes × V → Type 0) (k : Bytes) (v : V) (m : List (Bytes × V))
    → All P m
    → lookup k m ≡ some v
    → P (k, v)
unfolding lookup
lookup-All P k v [] h e = absurd (cc e)
lookup-All P k v ((j, w) ∷ m) h e = elim (Bool-cases (bytes_eq j k)) [
  | inl t ↦
      let same : j ≡ k = (bytes_eq_iff j k).0 t in
      let q : w ≡ v = cc (rw t at e) in subst (λ x. P (x, v)) same (subst (λ x. P (j, x)) q h.0)
  | inr f ↦ lookup-All P k v m h.1 (rw f at e)
]

address_set_keeps :
    (m : List (Bytes × Unit {0})) (ips : List Bytes) (ip : Bytes)
    → lookup ip m ≡ some tt
    → lookup ip (address_set m ips) ≡ some tt
unfolding address_set
address_set_keeps m [] ip h = h
address_set_keeps m (i ∷ ips) ip h =
    address_set_keeps (insert i tt m) ips ip (ground (arith, lookup-insert i ip tt m, h))

address_set_has :
    (m : List (Bytes × Unit {0})) (ips : List Bytes) (ip : Bytes)
    → In ip ips
    → lookup ip (address_set m ips) ≡ some tt
unfolding address_set
address_set_has m [] ip i = elim i [ ]
address_set_has m (j ∷ ips) ip (here e) =
    address_set_keeps (insert j tt m) ips ip
      (ground (arith, lookup-insert j ip tt m, bytes_eq_iff j ip, e))
address_set_has m (j ∷ ips) ip (there i) = address_set_has (insert j tt m) ips ip i

All-any_of :
    {A : Type 0} (p : A → Bool) (xs : List A) → any_of p xs ≡ false → All (λ x. p x ≡ false) xs
unfolding any_of
All-any_of p [] h = tt
All-any_of p (x ∷ xs) h = elim (Bool-cases (p x)) [
  | inl t ↦ absurd (cc (rw t at h))
  | inr f ↦ (f, All-any_of p xs (rw f at h))
]

module _ (existing : List Member) where
  abbrev Listed : Bytes × Member → Type 0
  Listed (ip, m) = (ip ≡ m.address) × In m existing

  members_by_ip-Listed :
      (map : List (Bytes × Member)) (ms : List Member)
      → All Listed map
      → All (λ m. In m existing) ms
      → All Listed (members_by_ip map ms)
  unfolding members_by_ip
  members_by_ip-Listed map [] h k = h
  members_by_ip-Listed map (m ∷ ms) h k =
      members_by_ip-Listed (insert m.address m map) ms
        (All-insert Listed m.address m map (refl, k.0) h) k.1

  -- Where syncMembers finds no drift, each address that is wanted has a member among those that were
  -- listed, with the port and the subnet that are wanted.
  pub drift-false :
      (node_port : ℕ) (ips : List Bytes) (subnet : Bytes)
      → drift existing node_port ips subnet ≡ false
      → (ip : Bytes) → In ip ips
      → (m : Member) × In m existing
        × (m.address ≡ ip)
        × (m.protocol_port ≡ node_port)
        × (m.subnet_id ≡ subnet)
  unfolding drift differs
  drift-false node_port ips subnet h ip i =
      let current = members_by_ip [] existing in
      let desired = address_set [] ips in
      let parts = both_false (not (length current == length desired)) _ h in
      let here_too =
        lookup-All (λ e. differs current node_port subnet e ≡ false) ip tt desired
          (All-any_of (differs current node_port subnet) desired parts)
          (address_set_has [] ips ip i) in
      elim (Option-cases (lookup ip current)) [
        | inl e ↦ absurd (cc (rw (e, differs) at here_too))
        | inr (m, e) ↦
            let (address, among) =
              lookup-All Listed ip m current
                (members_by_ip-Listed [] existing tt (All-of_In _ existing (λ x j. j))) e in
            let (port, net) =
              neither (m.protocol_port == node_port) _ (rw (e, differs) at here_too) in
            (
              m,
              among,
              sym address,
              ==→eq m.protocol_port node_port port,
              (bytes_eq_iff m.subnet_id subnet).0 net,
            )
      ]
    where
      both_false : (a b : Bool) → (a || b) ≡ false → b ≡ false
      both_false true b e = absurd (cc e)
      both_false false b e = e

      neither : (a b : Bool) → (not a || not b) ≡ false → (a ≡ true) × (b ≡ true)
      neither true true e = (refl, refl)
      neither true false e = absurd (cc e)
      neither false b e = absurd (cc e)
