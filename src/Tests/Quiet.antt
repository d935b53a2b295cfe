-- ===== src/Tests/Quiet.antt =====
-- The register and disconnect calls on a server with one client.
use fogros2_sgc.Base.{◌≡◌, refl, some, []}
use fogros2_sgc.Text.{Text, eq_refl, codes}
use fogros2_sgc.Routing.Update.Quiet.{Quiet, Publishes, Offers, Prunes, calls_succeed}
use fogros2_sgc.Tests.Server.{lone_server, Store}
use fogros2_sgc.Tests.Coder.{state_codec-IsFaithful, state_codec}
use fogros2_sgc.Routing.Update.{disconnect, register_proxy, register_publisher, routing_key}
use fogros2_sgc.Name.{GdpName, show_name}
use fogros2_sgc.Text.Sets.{insert, lookup, lookup-insert}
use fogros2_sgc.Redis.{connect}
use fogros2_sgc.Topics.Setup.{get_gdp_name_from_topic, Digest, setup_topic}
use fogros2_sgc.Topics.Roles.{Registered, setup_topic-registers}

pub stored_value : (key v : Text) (w : Store) → lookup key (insert key v w) ≡ some v
stored_value key v w = rw (lookup-insert key key v w) (rw (eq_refl key) refl)

pub lone_quiet : (url key : Text) → Quiet lone_server url key
unfolding connect
lone_quiet url key = record {
  value = λ w. lookup key w;
  con = λ w. tt;
  opens = λ w. refl;
  opens_same = λ w. refl;
  watches = λ c w. refl;
  watches_same = λ c w. refl;
  gets = λ c w. refl;
  gets_same = λ c w. refl;
  reply = λ c v w. [];
  sets = λ c v w. refl;
  sets_value = λ c v w. stored_value key v w;
}

abbrev topic : GdpName
topic = record { byte0 = 1; byte1 = 2; byte2 = 3; byte3 = 4 }

abbrev url : Text
url = codes "redis://rib"

abbrev quiet : Quiet lone_server url (routing_key topic)
quiet = lone_quiet url (routing_key topic)

calls_succeed_example :
    Publishes lone_server state_codec url topic quiet state_codec-IsFaithful
      (show_name topic)
      []
      (register_publisher lone_server state_codec url topic topic (codes "chatter") [])
    × Offers lone_server state_codec url topic quiet state_codec-IsFaithful
        (show_name topic)
        []
        (register_proxy lone_server state_codec url topic topic (codes "chatter") [])
    × Prunes lone_server state_codec url topic quiet state_codec-IsFaithful
        (show_name topic)
        []
        (disconnect lone_server state_codec url topic topic [])
calls_succeed_example =
    calls_succeed lone_server state_codec url topic quiet state_codec-IsFaithful topic
      (codes "chatter") []

abbrev digest : Text → Digest
digest s i = i

setup_topic-registers_example :
    Registered lone_server state_codec url digest
      (codes "/chatter")
      (codes "T")
      (codes "proxy")
      []
      topic
      (lone_quiet url
        (routing_key (get_gdp_name_from_topic digest (codes "/chatter") (codes "T") [])))
      state_codec-IsFaithful
      []
      (setup_topic lone_server state_codec url digest
        (codes "/chatter")
        (codes "T")
        (codes "proxy")
        []
        topic
        []).1
setup_topic-registers_example =
    setup_topic-registers lone_server state_codec url digest (codes "/chatter") (codes "T")
      (codes "proxy") [] topic
      (lone_quiet url
        (routing_key (get_gdp_name_from_topic digest (codes "/chatter") (codes "T") [])))
      state_codec-IsFaithful []
