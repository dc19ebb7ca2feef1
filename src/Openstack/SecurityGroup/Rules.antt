-- ===== src/Openstack/SecurityGroup/Rules.antt =====
-- securitygroup.go: what buildDesiredRules makes of the ports and the CIDRs.
use kubernetes_switchcloud.Base.{
  false, List, [], ◌∷◌, some, Bytes, ◌≡◌, refl, In, here, there, All, All-insert, lookup, insert,
  lookup-insert, to_lower, ◌==◌, Bool-cases, inl, inr, ap, All-of_In, subst,
}
use kubernetes_switchcloud.Cloud.Types.{Service, ServicePort, RuleOpts}
use kubernetes_switchcloud.Openstack.SecurityGroup.{
  RuleKey, Rules, rule_key, same_rule_key, same_rule_key_iff, desired_rule, desired_for_port,
  desired_for_ports, build_desired_rules,
}

abbrev pub port_key : ServicePort → Bytes → RuleKey
port_key p cidr = record { port = p.node_port; proto = to_lower p.protocol; cidr = cidr }

module _ (tenant : Bytes) (svc : Service) (cidrs : List Bytes) where
  -- The entry is the one that a port of the Service and a CIDR ask for.
  abbrev pub Wanted : RuleKey × RuleOpts → Type 0
  Wanted (k, opts) =
      (p : ServicePort) × (cidr : Bytes) × In p svc.ports
      × In cidr cidrs
      × ((p.node_port == 0) ≡ false)
      × (k ≡ port_key p cidr)
      × (opts ≡ desired_rule tenant svc k)

  for_port_Wanted :
      (p : ServicePort) (cs : List Bytes) (out : Rules)
      → In p svc.ports
      → (p.node_port == 0) ≡ false
      → All (λ c. In c cidrs) cs
      → All Wanted out
      → All Wanted (desired_for_port tenant svc p cs out)
  unfolding desired_for_port
  for_port_Wanted p [] out i z h k = k
  for_port_Wanted p (c ∷ cs) out i z h k =
      for_port_Wanted p cs _ i z h.1
        (All-insert Wanted (port_key p c) _ out (p, c, i, h.0, z, refl, refl) k)

  module _ (all_cidrs : All (λ c. In c cidrs) cidrs) where
    for_ports_Wanted :
        (ps : List ServicePort) (out : Rules)
        → All (λ p. In p svc.ports) ps
        → All Wanted out
        → All Wanted (desired_for_ports tenant svc cidrs ps out)
    unfolding desired_for_ports
    for_ports_Wanted [] out h k = k
    for_ports_Wanted (p ∷ ps) out h k = elim (Bool-cases (p.node_port == 0)) [
      | inl e ↦ rw e (for_ports_Wanted ps out h.1 k)
      | inr e ↦ rw e (for_ports_Wanted ps _ h.1 (for_port_Wanted p cidrs out h.0 e all_cidrs k))
    ]

  -- Each entry of what buildDesiredRules returns is asked for by a port of the Service with a
  -- nodePort and a CIDR: its key is theirs, and its rule is the one of the key.
  pub build_desired_rules-Wanted : All Wanted (build_desired_rules tenant svc cidrs)
  unfolding build_desired_rules
  build_desired_rules-Wanted =
      for_ports_Wanted (All-of_In _ cidrs (λ c i. i)) svc.ports []
        (All-of_In _ svc.ports (λ p i. i)) tt

  -- The map has the rule of the key.
  abbrev Has : Rules → RuleKey → Type 0
  Has out k = lookup k out ≡ some (desired_rule tenant svc k)

  Has-insert :
      (k j : RuleKey) (out : Rules) → Has out k → Has (insert j (desired_rule tenant svc j) out) k
  Has-insert k j out h = elim (Bool-cases (same_rule_key j k)) [
    | inl e ↦
        let s : j ≡ k = (same_rule_key_iff j k).0 e in
        rw (lookup-insert, e) (ap (λ i. some (desired_rule tenant svc i)) s)
    | inr e ↦ rw (lookup-insert, e) h
  ]

  Has-insert_same : (k : RuleKey) (out : Rules) → Has (insert k (desired_rule tenant svc k) out) k
  Has-insert_same k out = let e = (same_rule_key_iff k k).1 refl in rw (lookup-insert, e) refl

  for_port_keeps :
      (p : ServicePort) (cs : List Bytes) (out : Rules) (k : RuleKey)
      → Has out k
      → Has (desired_for_port tenant svc p cs out) k
  unfolding desired_for_port
  for_port_keeps p [] out k h = h
  for_port_keeps p (c ∷ cs) out k h = for_port_keeps p cs _ k (Has-insert k (port_key p c) out h)

  for_port_adds :
      (p : ServicePort) (c : Bytes) (cs : List Bytes) (out : Rules)
      → In c cs
      → Has (desired_for_port tenant svc p cs out) (port_key p c)
  unfolding desired_for_port
  for_port_adds p c [] out i = elim i [ ]
  for_port_adds p c (d ∷ cs) out (here e) = for_port_keeps p cs _ (port_key p c) (
      subst
        (λ x.
          Has (insert (port_key p x) (desired_rule tenant svc (port_key p x)) out) (port_key p c))
        e (Has-insert_same (port_key p c) out))
  for_port_adds p c (d ∷ cs) out (there i) = for_port_adds p c cs _ i

  for_ports_keeps :
      (ps : List ServicePort) (out : Rules) (k : RuleKey)
      → Has out k
      → Has (desired_for_ports tenant svc cidrs ps out) k
  unfolding desired_for_ports
  for_ports_keeps [] out k h = h
  for_ports_keeps (p ∷ ps) out k h = elim (Bool-cases (p.node_port == 0)) [
    | inl e ↦ rw e (for_ports_keeps ps out k h)
    | inr e ↦ rw e (for_ports_keeps ps _ k (for_port_keeps p cidrs out k h))
  ]

  for_ports_adds :
      (p : ServicePort) (c : Bytes) (ps : List ServicePort) (out : Rules)
      → In p ps
      → In c cidrs
      → (p.node_port == 0) ≡ false
      → Has (desired_for_ports tenant svc cidrs ps out) (port_key p c)
  unfolding desired_for_ports
  for_ports_adds p c [] out j i z = elim j [ ]
  for_ports_adds p c (q ∷ ps) out (here e) i z =
      let z' : (q.node_port == 0) ≡ false = subst (λ x. (x.node_port == 0) ≡ false) e z in
      rw z' (
        for_ports_keeps ps _ (port_key p c) (
          subst (λ x. Has (desired_for_port tenant svc x cidrs out) (port_key p c)) e
            (for_port_adds p c cidrs out i)))
  for_ports_adds p c (q ∷ ps) out (there j) i z = for_ports_adds p c ps _ j i z

  -- For each port of the Service that has a nodePort and each CIDR, buildDesiredRules has an entry
  -- under their key, and it is the rule of the key.
  pub lookup-build_desired_rules :
      (p : ServicePort) (c : Bytes)
      → In p svc.ports
      → In c cidrs
      → (p.node_port == 0) ≡ false
      → lookup (port_key p c) (build_desired_rules tenant svc cidrs)
        ≡ some (desired_rule tenant svc (port_key p c))
  unfolding build_desired_rules
  lookup-build_desired_rules p c j i z = for_ports_adds p c svc.ports [] j i z
