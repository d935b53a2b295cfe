-- ===== src/Redis.antt =====
-- core/src/db.rs over a Redis server, a clock and an environment that are parameters. The calls
-- into the redis crate are commands with the type of their reply; `World` is all that they may read
-- or change, other clients of the server included. `watch_redis_key` is not here: it is a stream of
-- notifications from the redis_async crate.
pub mod Rely
pub mod Watch
use fogros2_sgc.Base.{ℕ, zero, suc, Bool, true, false, List, [], ◌∷◌, ◌++◌, Option, none, some, ltb}
use fogros2_sgc.Base.Int.{ℤ, as_i64}
use fogros2_sgc.Base.Result.{Result, ok, err}
use fogros2_sgc.Base.Exec.{Exec, pure, lift, ◌>>=◌, ◌>>◌, ignore, map_error}
use fogros2_sgc.Text.{Text, codes, ◌==◌}
use fogros2_sgc.Name.{GdpName, show_name}

-- The commands that the source sends. `exec_set` is the pipeline MULTI, SET, EXEC, whose reply is
-- none when a watched key was touched.
pub data Command : Type 0 → Type 1 where
  watch : Text → Command (Unit {0})
  unwatch : Command (Unit {0})
  get : Text → Command (Option Text)
  exec_set : Text → Text → Command (Option (List Text))
  del : Text → Command (Unit {0})
  exists : Text → Command ℤ
  setex : Text → ℕ → Text → Command (Unit {0})
  hset : Text → Text → Text → Command (Unit {0})
  hsetnx : Text → Text → ℤ → Command ℤ
  hdel : Text → Text → Command (Unit {0})
  sadd : Text → Text → Command (Unit {0})
  config_set : Text → Text → Command (Unit {0})
  ping : Command Text

pub record Env : Type 1 where
  pub World : Type 0
  pub Client : Type 0
  pub Conn : Type 0
  pub RedisError : Type 0
  pub error_text : RedisError → Text
  pub open_client : Text → Result RedisError Client
  pub get_connection : Client → World → Result RedisError Conn × World
  pub query : (A : Type 0) → Conn → Command A → World → Result RedisError A × World
  -- milliseconds since the epoch, or none for a clock before it
  pub clock : World → Option ℕ × World
  pub sleep_ms : ℕ → World → World
  -- the variables HOSTNAME and FANOUT_FACTOR
  pub hostname : Option Text
  pub fanout_factor : Option Text

abbrev pub is_some : {A : Type 0} → Option A → Bool
is_some none = false
is_some (some a) = true

-- `n > 0`
abbrev pub positive : ℤ → Bool
positive (ℤ.pos k) = ltb 0 k
positive (ℤ.negsuc k) = false

abbrev pub or_default : Option Text → Text
or_default none = []
or_default (some s) = s

module _ (env : Env) where
  open env use {World, RedisError, open_client, get_connection, query, error_text}

  -- An action that may fail with an error of the crate.
  abbrev pub Redis : Type 0 → Type 0
  Redis A = Exec World RedisError A

  -- `Client::open(url)?` and `get_connection()?`
  unfoldable pub connect : Text → Redis env.Conn
  connect url = do client ← lift (open_client url); get_connection client

  unfoldable pub get_string : Text → Text → Redis (Option Text)
  unfolding connect
  get_string url key = do con ← connect url; query (Option Text) con (get key)

  -- What follows the read of the watched key.
  unfoldable pub commit_if : env.Conn → Text → Text → Bool → Redis Bool
  commit_if con key new true = do
    reply ← query (Option (List Text)) con (exec_set key new)
    pure (is_some reply)
  commit_if con key new false = do ignore (query (Unit {0}) con unwatch); pure false

  unfoldable pub try_atomic_update : Text → Text → Text → Text → Redis Bool
  unfolding connect commit_if
  try_atomic_update url key new old = do
    con ← connect url
    query (Unit {0}) con (watch key)
    current ← query (Option Text) con (get key)
    commit_if con key new (or_default current == old)

  -- At most as many tries as the last argument says.
  unfoldable pub atomic_update : Text → Text → Text → Text → ℕ → Redis Bool
  unfolding try_atomic_update
  atomic_update url key new old zero = pure false
  atomic_update url key new old (suc tries) = do
    done ← try_atomic_update url key new old
    elim done [ true ↦ pure true | false ↦ atomic_update url key new old tries ]

  unfoldable pub allow_keyspace_notification : Text → Redis (Unit {0})
  unfolding connect
  allow_keyspace_notification url = do
    con ← connect url
    query (Unit {0}) con (config_set (codes "notify-keyspace-events") (codes "KEA"))

  unfoldable pub get_container_name : Text
  get_container_name = elim env.hostname [ none ↦ codes "unknown" | some name ↦ name ]

  unfoldable pub publish_gdp_name_mapping : Text → GdpName → Text → Redis (Unit {0})
  unfolding connect
  publish_gdp_name_mapping url name container = do
    con ← connect url
    query (Unit {0}) con (hset (codes "gdpname_map") (show_name name) container)

  unfoldable pub test_redis_connection : Text → Redis (Unit {0})
  unfolding connect
  test_redis_connection url = do con ← connect url; ignore_reply ← query Text con ping; pure tt

  -- `now_ms_i64` of core/src/routing.rs, and the time stamps of this file.
  unfoldable pub now_ms : World → ℤ × World
  now_ms w = let (t, w') = env.clock w in (elim t [ none ↦ as_i64 0 | some ms ↦ as_i64 ms ], w')

  abbrev stamp : Redis ℤ
  stamp w = let (t, w') = now_ms w in (ok t, w')

  -- The closure's result is only logged.
  unfoldable pub mark_node_received_data : Text → GdpName → Redis (Unit {0})
  unfolding connect now_ms get_container_name
  mark_node_received_data url name = ignore do
    con ← connect url
    query (Unit {0}) con (sadd (codes "nodes_received_data") (show_name name))
    ts ← stamp
    query ℤ con (hsetnx (codes "bench_first_msg_ms") get_container_name ts)

  unfoldable pub proxy_alive_key : GdpName → Text → Text
  proxy_alive_key topic proxy = show_name topic ++ (codes "-proxy-alive-" ++ proxy)

  unfoldable pub set_proxy_heartbeat : Text → GdpName → GdpName → ℕ → Exec World Text (Unit {0})
  unfolding connect proxy_alive_key
  set_proxy_heartbeat url topic proxy ttl = map_error error_text do
    con ← connect url
    query (Unit {0}) con (setex (proxy_alive_key topic (show_name proxy)) ttl (codes "1"))

  -- Any failure reads as "not alive".
  unfoldable pub is_proxy_alive : Text → GdpName → Text → World → Bool × World
  unfolding connect proxy_alive_key
  is_proxy_alive url topic proxy w =
      let (r, w') = (connect url >>= λ con. query ℤ con (exists (proxy_alive_key topic proxy))) w in
      (elim r [ ok n ↦ positive n | err e ↦ false ], w')

  -- The six keys of a topic.
  abbrev pub topic_keys : Text → List Text
  topic_keys topic =
      (topic ++ codes "-routing")
      ∷ (topic ++ codes "-publishers")
      ∷ (topic ++ codes "-proxies")
      ∷ (topic ++ codes "-connections")
      ∷ (topic ++ codes "-pub")
      ∷ (topic ++ codes "-sub")
      ∷ []

  abbrev pub delete_all : env.Conn → List Text → Redis (Unit {0})
  delete_all con [] = pure tt
  delete_all con (k ∷ ks) = do query (Unit {0}) con (del k); delete_all con ks

  unfoldable pub clear_topic_key : Text → Text → Redis (Unit {0})
  unfolding connect
  clear_topic_key url topic = do con ← connect url; delete_all con (topic_keys topic)
