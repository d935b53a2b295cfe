-- ===== src/Tests/Commit.antt =====
-- The compare-and-swap: one that commits, and one that the server refuses.
use fogros2_sgc.Base.{◌≤◌, ◌≡◌, refl, true, false, none, [], ◌∷◌, arith}
use fogros2_sgc.Text.{Text, ◌==◌, codes}
use fogros2_sgc.Redis.{Command, Env, atomic_update}
use fogros2_sgc.Routing.Update.Commit.{attach_pass-lost}
use fogros2_sgc.Routing.Update.Subscribe.{attach_pass, commit_or}
use fogros2_sgc.Routing.Update.{cas_backoff, routing_key, to_json, update_loop}
use fogros2_sgc.Routing.{joined, RoutingState, add_edge_unique, add_publisher, has_proxy}
use fogros2_sgc.Tests.Server.{answer, Store, lone_server}
use fogros2_sgc.Tests.Coder.{state_codec}
use fogros2_sgc.Base.Result.{ok, Result}
use fogros2_sgc.Name.{GdpName, show_name}
use fogros2_sgc.Routing.Children.{build_children_map}
use fogros2_sgc.Routing.Fanout.{fanout}
use fogros2_sgc.Text.Sets.{contains, lookup}

abbrev topic : GdpName
topic = record { byte0 = 1; byte1 = 2; byte2 = 3; byte3 = 4 }

abbrev add_root : RoutingState → RoutingState
add_root st = add_publisher st (codes "root")

updated :
    (update_loop lone_server state_codec
      (codes "redis://rib")
      topic
      add_root
      (codes "failed")
      2
      []).0
    ≡ ok tt
unfolding update_loop routing_key show_name state_codec lookup add_publisher contains ◌==◌
updated = refl

-- A server that aborts every transaction, as when another client wrote the key once more.
abbrev refuse : (A : Type 0) → Command A → Store → Result Text A × Store
refuse _ (Command.exec_set k v) w = (ok none, w)
refuse A c w = answer c w

abbrev busy_server : Env
busy_server = record lone_server { query = λ A con c w. refuse A c w }

abbrev roots : RoutingState
roots = record { publishers = codes "a" ∷ codes "b" ∷ []; proxies = []; edges = []; attach_ms = [] }

lost :
    (atomic_update busy_server
      (codes "redis://rib")
      (routing_key topic)
      (to_json state_codec (add_edge_unique roots (codes "a") (codes "c")))
      []
      1
      []).0
    ≡ ok false
unfolding atomic_update routing_key show_name lookup ◌==◌
lost = refl

two : 2 ≤ fanout busy_server.fanout_factor
unfolding fanout
two = omega arith

no_proxy : (n : Text) → has_proxy roots n ≡ false
unfolding has_proxy contains
no_proxy n = refl

attach_pass-lost_example :
    let st1 = add_edge_unique roots (codes "a") (codes "c") in
    let st2 = add_edge_unique st1 (codes "b") (codes "c") in
    let w1 =
      (atomic_update busy_server
        (codes "redis://rib")
        (routing_key topic)
        (to_json state_codec st1)
        []
        1
        []).1 in
    (attach_pass busy_server state_codec
        (codes "redis://rib")
        topic
        (codes "chatter")
        (codes "c")
        []
        0
        (build_children_map [])
        (codes "a" ∷ codes "b" ∷ [])
        roots
        []
      ≡ commit_or busy_server state_codec
          (codes "redis://rib")
          topic
          (codes "chatter")
          []
          0
          st2
          (attach_pass busy_server state_codec
            (codes "redis://rib")
            topic
            (codes "chatter")
            (codes "c")
            []
            0
            (build_children_map [])
            []
            st2)
          (cas_backoff busy_server 0 w1))
    × (joined st2.edges (codes "a") (codes "c") ≡ true)
    × (joined st2.edges (codes "b") (codes "c") ≡ true)
unfolding build_children_map
attach_pass-lost_example =
    attach_pass-lost busy_server state_codec (codes "redis://rib") topic (codes "chatter")
      (codes "c") [] 0 (build_children_map []) (codes "a") (codes "b") [] roots []
      (no_proxy (codes "a")) (no_proxy (codes "b")) (omega (arith, two)) (omega (arith, two)) lost
