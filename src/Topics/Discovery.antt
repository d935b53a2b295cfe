-- ===== src/Topics/Discovery.antt =====
-- core/src/topic_manager.rs, `ros_topic_discovery`, over the host of the commands, and the names of
-- core/src/structs.rs that it uses. SHA-256, the reading of the secret, the ROS node and the random
-- bytes are parameters; errors of the name's publication are only logged.
use fogros2_sgc.Base.{◌≡◌, List, [], ◌∷◌, ◌++◌, if◌then◌else◌}
use fogros2_sgc.Text.{Text, ◌==◌, codes}
use fogros2_sgc.Commands.{Host, Ending, exits, panics, serves, secret_path}
use fogros2_sgc.Redis.{Env, publish_gdp_name_mapping, get_container_name}
use fogros2_sgc.Topics.Setup.{
  Digest, get_gdp_name_from_topic, Task, setup_topic, manages, attaches_later, keeps_alive,
}
use fogros2_sgc.Config.{AppConfig, Topic, get_redis_url}
use fogros2_sgc.Routing.Update.{Codec}
use fogros2_sgc.Routing.{RoutingState}
use fogros2_sgc.Name.{GdpName}
use fogros2_sgc.Base.Result.{ok, err, Result}

-- What starts with the program: how it ends, or serves with these tasks.
pub record Started (W : Type 0) : Type 0 where
  pub ending : Ending
  pub tasks : List Task
  pub world : W

abbrev stopped : {W : Type 0} → Ending → W → Started W
stopped e w = record { ending = e; tasks = []; world = w }

-- The tasks that a topic needs: one manager, and by the role a later attachment or a heartbeat.
abbrev pub tasks_of : (Text → Digest) → Text → Text → GdpName → Topic → List Task
tasks_of sha256 url secret me t =
    let topic_gdp = get_gdp_name_from_topic sha256 t.name t.topic_type secret in
    manages (record {
      topic_name = t.name;
      topic_type = t.topic_type;
      certificate = secret;
      my_gdp_name = me;
      is_publisher = t.role == codes "publisher";
      is_proxy = t.role == codes "proxy";
    })
    ∷ ((if t.role == codes "subscriber" then attaches_later url topic_gdp t.name me ∷ [] else [])
        ++ (if t.role == codes "proxy" then keeps_alive url topic_gdp me ∷ [] else []))

abbrev pub all_tasks : (Text → Digest) → Text → Text → GdpName → List Topic → List Task
all_tasks sha256 url secret me [] = []
all_tasks sha256 url secret me (t ∷ ts) =
    tasks_of sha256 url secret me t ++ all_tasks sha256 url secret me ts

module _ (env : Env) (codec : Codec RoutingState) (host : Host env) (sha256 : Text → Digest)
    (read_secret : Text → env.World → Result Text Text)
    (create_node : env.World → Result Text (Unit {0}) × env.World) (me : GdpName) where
  open env use {World}

  unfoldable pub set_up_topics : Text → Text → List Topic → World → List Task × World
  unfolding setup_topic
  set_up_topics url secret [] w = ([], w)
  set_up_topics url secret (t ∷ ts) w =
      let (tasks, w1) = setup_topic env codec url sha256 t.name t.topic_type t.role secret me w in
      let (more, w2) = set_up_topics url secret ts w1 in (tasks ++ more, w2)

  -- After the node: `get_redis_url` fetches the configuration once more.
  unfoldable pub start_topics : AppConfig → Text → Result Text AppConfig → World → Started World
  unfolding set_up_topics publish_gdp_name_mapping get_container_name get_redis_url
  start_topics config secret (err e) w = stopped panics w
  start_topics config secret (ok again) w =
      let url = get_redis_url again in
      let (ignored, w1) = publish_gdp_name_mapping env url me (get_container_name env) w in
      let (tasks, w2) = set_up_topics url secret config.topics w1 in
      record { ending = serves; tasks = tasks; world = w2 }

  unfoldable pub with_node : AppConfig → Text → Result Text (Unit {0}) × World → Started World
  unfolding start_topics
  with_node config secret (err e, w) = stopped (exits 1) w
  with_node config secret (ok u, w) = start_topics config secret (host.fetch w) w

  unfoldable pub with_secret : AppConfig → Result Text Text → World → Started World
  unfolding with_node
  with_secret config (err e) w = stopped (exits 1) w
  with_secret config (ok secret) w = with_node config secret (create_node w)

  unfoldable pub with_config : Result Text AppConfig → World → Started World
  unfolding with_secret secret_path
  with_config (err e) w = stopped (exits 1) w
  with_config (ok config) w = with_secret config (read_secret (secret_path config.group_secret) w) w

  unfoldable pub ros_topic_discovery : World → Started World
  unfolding with_config
  ros_topic_discovery w = with_config (host.fetch w) w

  -- What the start needs, and what it is given.
  pub record Starts (w : World) : Type 0 where
    pub config : AppConfig
    pub again : AppConfig
    pub secret : Text
    pub loaded : host.fetch w ≡ ok config
    pub read : read_secret (secret_path config.group_secret) w ≡ ok secret
    pub made : (create_node w).0 ≡ ok tt
    pub loaded_again : host.fetch (create_node w).1 ≡ ok again
