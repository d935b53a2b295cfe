-- ===== src/Topics/Setup.antt =====
-- core/src/topic_manager.rs, how a node takes up its role for a topic, and the name of a topic of
-- core/src/structs.rs. SHA-256 and the random number are arguments; errors are only logged.
use fogros2_sgc.Base.{ℕ, ◌+◌, ◌%◌, Bool, List, [], ◌∷◌, ◌++◌, if◌then◌else◌}
use fogros2_sgc.Text.{Text, ◌==◌, codes}
use fogros2_sgc.Routing.Update.{register_publisher, register_proxy, Codec}
use fogros2_sgc.Routing.Update.Subscribe.{subscribe}
use fogros2_sgc.Redis.{Env, set_proxy_heartbeat}
use fogros2_sgc.Routing.{RoutingState}
use fogros2_sgc.Name.{GdpName}

-- The byte of a digest at an index.
abbrev pub Digest : Type 0
Digest = ℕ → ℕ

abbrev pub first_bytes : Digest → GdpName
first_bytes d = record { byte0 = d 0; byte1 = d 1; byte2 = d 2; byte3 = d 3 }

unfoldable pub get_gdp_name_from_topic : (Text → Digest) → Text → Text → Text → GdpName
get_gdp_name_from_topic sha256 topic_name topic_type cert =
    first_bytes (sha256 (topic_name ++ (topic_type ++ cert)))

-- The arguments of `manage_topic_connections`.
pub record Manager : Type 0 where
  pub topic_name : Text
  pub topic_type : Text
  pub certificate : Text
  pub my_gdp_name : GdpName
  pub is_publisher : Bool
  pub is_proxy : Bool

-- The tasks that are started, with what they are given: the manager; `attach_as_subscriber` with the
-- Redis address, the topic, its name and the node; the heartbeat with the address, the topic and the
-- node.
pub data Task : Type 0 where
  manages : Manager → Task
  attaches_later : Text → GdpName → Text → GdpName → Task
  keeps_alive : Text → GdpName → GdpName → Task

module _ (env : Env) (codec : Codec RoutingState) (url : Text) where
  unfoldable pub setup_topic :
      (Text → Digest) → Text → Text → Text → Text → GdpName → env.World → List Task × env.World
  unfolding register_publisher register_proxy get_gdp_name_from_topic
  setup_topic sha256 topic_name topic_type role secret me w =
      let topic_gdp = get_gdp_name_from_topic sha256 topic_name topic_type secret in
      let manager = manages (record {
        topic_name = topic_name;
        topic_type = topic_type;
        certificate = secret;
        my_gdp_name = me;
        is_publisher = role == codes "publisher";
        is_proxy = role == codes "proxy";
      }) in
      if role == codes "publisher"
      then (manager ∷ [], (register_publisher env codec url topic_gdp me topic_name w).1)
      else if role == codes "subscriber"
      then (manager ∷ attaches_later url topic_gdp topic_name me ∷ [], w)
      else if role == codes "proxy"
      then (
        manager ∷ keeps_alive url topic_gdp me ∷ [],
        (register_proxy env codec url topic_gdp me topic_name w).1,
      )
      else (manager ∷ [], w)

  module _ (topic : GdpName) where
    -- 2000 ms and a random part below 5000 ms, then one call of `subscribe`.
    unfoldable pub attach_as_subscriber : Text → GdpName → ℕ → env.World → env.World
    unfolding subscribe
    attach_as_subscriber topic_name me random w =
        (subscribe env codec url topic topic_name me (env.sleep_ms (2000 + random % 5000) w)).1

    -- One turn of the heartbeat's loop.
    unfoldable pub heartbeat : GdpName → env.World → env.World
    unfolding set_proxy_heartbeat
    heartbeat me w = env.sleep_ms 5000 (set_proxy_heartbeat env url topic me 10 w).1
