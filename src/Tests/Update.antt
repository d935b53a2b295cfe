-- ===== src/Tests/Update.antt =====
-- The compare-and-swap loops on a server with one client.
use fogros2_sgc.Base.{ℕ, ◌≤◌, ◌≡◌, refl, ap, subst, ◌∙◌, true, [], ◌∷◌, arith}
use fogros2_sgc.Text.{Text, codes}
use fogros2_sgc.Redis.{or_default}
use fogros2_sgc.Name.{GdpName, show_name}
use fogros2_sgc.Routing.Update.Subscribe.Rounds.{subscribe-holds}
use fogros2_sgc.Tests.Coder.{
  state_codec-IsFaithful, state_codec-IsFaithful, state_codec-IsFaithful, state_codec-IsFaithful,
  state_codec-IsFaithful, state_codec-IsFaithful, state_codec-IsFaithful, state_codec-IsFaithful,
  state_codec-IsFaithful, state_codec-IsFaithful, state_codec-IsFaithful, state_codec-IsFaithful,
  state_codec, state_codec-IsFaithful,
}
use fogros2_sgc.Routing.Update.{
  to_json, disconnect, register_proxy, parse_state, register_publisher, routing_key,
}
use fogros2_sgc.Tests.Server.{lone-holds, Store, lone_rely, lone_server}
use fogros2_sgc.Routing.Update.Keeps.{parse-to_json, calls-hold, GoodValue}
use fogros2_sgc.Redis.Rely.{Rely}
use fogros2_sgc.Routing.Tree.Valid.{blank-IsValid}
use fogros2_sgc.Routing.{has_parent, has_parent_in, blank, RoutingState}
use fogros2_sgc.Routing.Fanout.{fanout}
use fogros2_sgc.Text.Sets.{lookup}
use fogros2_sgc.Routing.Update.Subscribe.{subscribe}
use fogros2_sgc.Routing.Update.Subscribe.Placed.{Placing, subscribe-ok}
use fogros2_sgc.Base.Result.{ok}
use fogros2_sgc.Tests.Quiet.{stored_value}

abbrev topic : GdpName
topic = record { byte0 = 1; byte1 = 2; byte2 = 3; byte3 = 4 }

abbrev robot : ℕ → GdpName
robot n = record { byte0 = 0; byte1 = 0; byte2 = 0; byte3 = n }

abbrev url : Text
url = codes "redis://rib:6379"

abbrev Good : Text → Text → Type 0
Good =
    GoodValue lone_server state_codec state_codec-IsFaithful (fanout lone_server.fanout_factor)
      topic

abbrev rely : Rely lone_server Good
rely = lone_rely Good

parse-nil : parse_state state_codec [] ≡ blank
unfolding parse_state
parse-nil = refl

-- The empty store.
empty_good : rely.holds []
unfolding lookup
empty_good =
    lone-holds Good [] (λ k e. rw parse-nil (blank-IsValid (fanout lone_server.fanout_factor)))

fanout_two : 2 ≤ fanout lone_server.fanout_factor
unfolding fanout
fanout_two = omega arith

subscribe-holds_example :
    rely.holds (subscribe lone_server state_codec url topic (codes "chatter") (robot 7) []).1
subscribe-holds_example =
    subscribe-holds lone_server state_codec state_codec-IsFaithful topic rely url (codes "chatter")
      fanout_two (robot 7) [] empty_good

-- A publisher and two subscribers, as the program runs.
after_publisher : Store
unfolding register_publisher
after_publisher =
    (register_publisher lone_server state_codec url topic (robot 1) (codes "chatter") []).1

two_children : Store
two_children =
    (subscribe lone_server state_codec url topic (codes "chatter") (robot 3)
      (subscribe lone_server state_codec url topic (codes "chatter") (robot 2) after_publisher).1).1

final : RoutingState
final = parse_state state_codec (or_default (lookup (routing_key topic) two_children))

final-edges :
    final.edges
    ≡ record { parent = show_name (robot 1); child = show_name (robot 2) }
      ∷ record { parent = show_name (robot 1); child = show_name (robot 3) }
      ∷ []
unfolding final two_children after_publisher subscribe register_publisher state_codec lookup
    parse_state routing_key show_name
final-edges = refl

calls-hold_example :
    rely.holds
      (register_publisher lone_server state_codec url topic (robot 1) (codes "chatter") []).1
    × rely.holds (register_proxy lone_server state_codec url topic (robot 1) (codes "chatter") []).1
    × rely.holds (disconnect lone_server state_codec url topic (robot 1) []).1
calls-hold_example =
    calls-hold lone_server state_codec state_codec-IsFaithful (fanout lone_server.fanout_factor)
      topic rely url (robot 1) (codes "chatter") [] empty_good

subscribed :
    (subscribe lone_server state_codec url topic (codes "chatter") (robot 2) after_publisher).0
    ≡ ok tt
unfolding after_publisher subscribe register_publisher state_codec lookup parse_state routing_key
    show_name
subscribed = refl

-- The value in the store has a parent for the node.
abbrev HasParent : Text → Store → Type 0
HasParent node w =
    has_parent (parse_state state_codec (or_default (lookup (routing_key topic) w))) node ≡ true

placing : (node : Text) → Placing lone_server state_codec topic node
unfolding has_parent
placing node = record {
  holds = HasParent node;
  on_get = λ con v w e h.
      let same : v ≡ lookup (routing_key topic) w = cc (e) in
      subst (λ o. has_parent (parse_state state_codec (or_default o)) node ≡ true) same h;
  on_exec = λ con st reply w e h.
      let back = state_codec-IsFaithful st in
      let stored =
        ap (λ o. parse_state state_codec (or_default o))
          (stored_value (routing_key topic) (to_json state_codec st) w)
        ∙ parse-to_json state_codec st back in
      ap (λ (r : RoutingState). has_parent_in r.edges node) stored
      ∙ ap (λ es. has_parent_in es node) back.same_edges
      ∙ h;
}

subscribe-ok_example :
    HasParent
      (show_name (robot 2))
      (subscribe lone_server state_codec url topic (codes "chatter") (robot 2) after_publisher).1
unfolding placing
subscribe-ok_example =
    subscribe-ok lone_server state_codec url topic (codes "chatter") (robot 2)
      (placing (show_name (robot 2))) after_publisher subscribed
