-- ===== src/Cloud/AnyResult.antt =====
-- The rules of Hoare for code whose results do not matter, and the calls that only read.
use kubernetes_switchcloud.Base.{List}
use kubernetes_switchcloud.Cloud.Types.{
  Result, Call, Log, authenticate, new_service_client, list_lbs, list_listeners, list_pools,
  list_members, list_fips, list_sgs, list_rules, list_ports, list_networks, list_subnets,
  list_servers, get_service, get_release, list_releases, get_ksc, get_secret, get_openstack_cluster,
  list_secrets,
}
use kubernetes_switchcloud.Cloud.Action.{M, ◌>>=◌, listing, for_each, try}
use kubernetes_switchcloud.Cloud.Hoare.{
  Ensures, Any, OkMeets-Any, lift_ensures, listing_ensures, bind_ensures, Any-ensures, try_ensures,
  for_each_ensures,
}
use kubernetes_switchcloud.Base.{All-of_In}

-- It changes nothing.
abbrev pub IsRead : Call → Type 0
IsRead (authenticate _) = Unit
IsRead (new_service_client _ _) = Unit
IsRead (list_lbs _) = Unit
IsRead (list_listeners _) = Unit
IsRead (list_pools _) = Unit
IsRead (list_members _) = Unit
IsRead (list_fips _) = Unit
IsRead (list_sgs _) = Unit
IsRead (list_rules _) = Unit
IsRead (list_ports _ _ _) = Unit
IsRead list_networks = Unit
IsRead (list_subnets _) = Unit
IsRead list_servers = Unit
IsRead (get_service _ _ _) = Unit
IsRead (get_release _ _) = Unit
IsRead (list_releases _) = Unit
IsRead (get_ksc _) = Unit
IsRead (get_secret _) = Unit
IsRead (get_openstack_cluster _ _) = Unit
IsRead (list_secrets _) = Unit
IsRead _ = ⊥

module _ {P : Call → Type 0} where
  pub lift-Any : {A : Type 0} (r : Result A) → Ensures P (λ log. (r, log)) Any
  lift-Any r = lift_ensures r (OkMeets-Any r)

  pub listing-Any :
      {A : Type 0} (c : Call) (answer : Log → A) → P c → Ensures P (listing c answer) Any
  listing-Any c answer p = listing_ensures c answer p (λ log. tt)

  pub for_each-Any :
      {A : Type 0} {f : A → M (Unit {0})} (xs : List A)
      → ((x : A) → Ensures P (f x) Any)
      → Ensures P (for_each f xs) Any
  for_each-Any xs hf = for_each_ensures xs (All-of_In Any xs (λ x i. tt)) (λ x _. hf x)

  pub try-Any : {A : Type 0} {m : M A} → Ensures P m Any → Ensures P (try m) Any
  try-Any hm = Any-ensures (try_ensures hm)

  pub any_bind :
      {A B : Type 0} {R : B → Type 0} {m : M A} {f : A → M B}
      → Ensures P m Any
      → ((a : A) → Ensures P (f a) R)
      → Ensures P (m >>= f) R
  any_bind hm hf = bind_ensures hm (λ a _. hf a)
