-- ===== src/Tests/Edge.antt =====
-- Examples of the edge router: a node with two addresses, a ClientHello in pieces, and a listener.
use kubernetes_switchcloud.Base.{
  ℕ, Bool, length, false, List, [], ◌∷◌, ◌++◌, none, some, Bytes, lit, ◌≡◌, refl, All, any_of,
  contains_string, bytes_eq, lookup, bytes_key, if◌then◌else◌, arith, contains_byte, drop,
}
use kubernetes_switchcloud.Cloud.Types.{ok}
use kubernetes_switchcloud.Sniproxy.Peek.{Conn, closed, sends}
use kubernetes_switchcloud.Sniproxy.Peek.Hello.{client_hello}
use kubernetes_switchcloud.Sniproxy.Router.{Router, backend, find_backend}
use kubernetes_switchcloud.Sniproxy.Handle.{Upstream, proxied, handle}
use kubernetes_switchcloud.Sniproxy.Handle.Copying.{TakesAll}
use kubernetes_switchcloud.Sniproxy.Handle.Forwards.{handle-client_hello}
use kubernetes_switchcloud.Sniproxy.Listeners.{Flag, listener_of, set_flag}
use kubernetes_switchcloud.Sniproxy.Listeners.RoundTrip.{long_flag, short_flag, set_flag-long_flag}
use kubernetes_switchcloud.Sniproxy.IpSync.{
  Node, RouterService, IpSyncEnv, split_byte, trim_space, bytes_leb, sort_strings, wanted_ips,
  sync_external_ips, run_ip_syncer,
}
use kubernetes_switchcloud.Sniproxy.IpSync.Sorted.{IsAscending}
use kubernetes_switchcloud.Sniproxy.IpSync.Addresses.{has_ip, wanted_ips-IsAscending}
use kubernetes_switchcloud.Sniproxy.IpSync.Settled.{
  no_ips, Succeeded, sync_external_ips_settled, sync_external_ips_succeeds,
}
use kubernetes_switchcloud.Sniproxy.IpSync.Debounce.{
  IsSpaced, IsCovered, run_ip_syncer-IsSpaced, run_ip_syncer_covers,
}
use kubernetes_switchcloud.Tests.World.{demo, shop, web_name, hello}

abbrev edge_node : Node
edge_node = record {
  addresses =
      record { type = lit "InternalIP"; address = lit "10.0.0.7" }
      ∷ record { type = lit "Hostname"; address = lit "edge" }
      ∷ [];
  extra_ips = lit "203.0.113.4, 10.0.0.7";
}

wanted_ips-IsAscending_example :
    IsAscending (wanted_ips (edge_node ∷ []))
    × ((ip : Bytes)
        → contains_string (wanted_ips (edge_node ∷ [])) ip ≡ any_of (has_ip ip) (edge_node ∷ []))
wanted_ips-IsAscending_example = wanted_ips-IsAscending (edge_node ∷ [])

abbrev edge_service : RouterService
edge_service = record { type = lit "ClusterIP"; external_ips = wanted_ips (edge_node ∷ []) }

abbrev edge_env : IpSyncEnv
edge_env = record {
  list_nodes = ok (edge_node ∷ []);
  get_service = ok edge_service;
  patch_service = λ ips. ok tt;
}

sync_external_ips_settled_example :
    (sync_external_ips edge_env).1
    ≡ (if no_ips (wanted_ips (edge_node ∷ [])) then some [] else none)
unfolding bytes_eq lit
sync_external_ips_settled_example =
    sync_external_ips_settled edge_env (edge_node ∷ []) edge_service refl refl refl refl

abbrev new_env : IpSyncEnv
new_env = record edge_env {
  get_service = ok (record { type = lit "ClusterIP"; external_ips = [] });
}

sync_external_ips_succeeds_example : Succeeded new_env
unfolding sync_external_ips bytes_eq lit sort_strings split_byte trim_space contains_string
    bytes_leb
sync_external_ips_succeeds_example = sync_external_ips_succeeds new_env refl

abbrev node_events : List ℕ
node_events = 1 ∷ 3 ∷ 40 ∷ 100 ∷ []

-- Of two that are ready the event is taken.
abbrev event_first : ℕ → Bool × Bool
event_first k = (false, false)

run_ip_syncer-IsSpaced_example :
    IsSpaced 5 (run_ip_syncer (some 80) event_first (λ k. 2) 0 5 node_events)
run_ip_syncer-IsSpaced_example =
    run_ip_syncer-IsSpaced (some 80) event_first (λ k. 2) 0 5 node_events

run_ip_syncer_covers_example :
    All
      (IsCovered (some 80) 0 5 (run_ip_syncer (some 80) event_first (λ k. 2) 0 5 node_events))
      node_events
run_ip_syncer_covers_example =
    run_ip_syncer_covers (some 80) event_first (λ k. 2) 0 5 node_events
      (
        (omega arith, (omega arith, (omega arith, tt))),
        ((omega arith, (omega arith, tt)), ((omega arith, tt), (tt, tt))),
      )

-- The events at 1 and 3 go with one sync at 35, the one at 40 waits for it to be 67.
syncs :
    run_ip_syncer none event_first (λ k. 2) 0 5 node_events ≡ (35, 37) ∷ (67, 69) ∷ (100, 102) ∷ []
unfolding run_ip_syncer
syncs = refl

-- Where the context is done at 60, the wait for 67 is cut, and the event at 40 is lost.
cut_syncs : run_ip_syncer (some 60) event_first (λ k. 2) 0 5 node_events ≡ (35, 37) ∷ []
unfolding run_ip_syncer
cut_syncs = refl

-- The ClientHello in two pieces, with one byte behind it.
abbrev client : Conn
client = sends (22 ∷ 3 ∷ []) (sends (drop 2 (client_hello hello ++ (7 ∷ []))) closed)

-- A backend that takes all that it is written.
abbrev takes_all : Upstream
takes_all written chunk = length chunk

takes_all-TakesAll : TakesAll takes_all
takes_all-TakesAll written chunk = ground arith

abbrev apid_label : Bytes
apid_label = lit "talos.aenix.io/apid"

abbrev filled : Router
filled = record {
  backends = (apid_label, (demo, web_name) ∷ []) ∷ [];
  owned = [];
  port_by_label = [];
}

handle-client_hello_example :
    handle filled (λ b. some takes_all) 200 apid_label client
    ≡ proxied web_name (some (client_hello hello ++ (7 ∷ [])))
unfolding backend find_backend lookup bytes_eq lit
handle-client_hello_example =
    handle-client_hello filled (λ b. some takes_all) 200 apid_label hello client (7 ∷ []) web_name
      takes_all refl (omega arith) refl refl refl takes_all-TakesAll (omega arith)

set_flag-long_flag_example :
    (set_flag [] (long_flag demo 50000 shop web_name)
      ≡ Flag.ok (listener_of demo 50000 shop (web_name ∷ []) ∷ []))
    × (set_flag [] (short_flag demo 50000 shop) ≡ Flag.ok (listener_of demo 50000 shop [] ∷ []))
unfolding contains_byte
set_flag-long_flag_example =
    set_flag-long_flag [] demo 50000 shop web_name refl refl refl (omega arith) (omega arith)
