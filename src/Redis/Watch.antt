-- ===== src/Redis/Watch.antt =====
-- core/src/db.rs, `watch_redis_key`, with a configuration that was fetched. The subscription of the
-- redis_async crate is a parameter, and its stream is a list of items.
use fogros2_sgc.Base.{ℕ, ◌+◌, Bool, true, false, Option, none, List, [], ◌∷◌, ◌++◌, if◌then◌else◌}
use fogros2_sgc.Text.{codes, Text}
use fogros2_sgc.Config.{AppConfig, get_redis_url}
use fogros2_sgc.Config.Address.{get_redis_address_and_port}
use fogros2_sgc.Redis.{Env, allow_keyspace_notification}
use fogros2_sgc.Base.Exec.{◌>>=◌, Exec}
use fogros2_sgc.Base.Result.{ok, err, to_option}

pub record Subscriptions (env : Env) : Type 1 where
  pub Pubsub : Type 0
  pub Stream : Type 0
  pub pubsub_connect : Text → ℕ → Exec env.World Text Pubsub
  pub psubscribe : Pubsub → Text → Exec env.World Text Stream

-- What `stream.next()` gives: a message, an error, or none once the stream has ended.
pub data Item : Type 0 where
  message failure ended : Item

-- The task: how many changes it has sent, and whether its loop goes on.
pub record Watcher : Type 0 where
  pub sent : ℕ
  pub running : Bool

-- One item, and whether the receiver is closed then. Only after a message is that looked at.
unfoldable pub forward : Watcher → Item → Bool → Watcher
forward watcher message true = record watcher { running = false }
forward watcher message false = record watcher { sent = watcher.sent + 1 }
forward watcher failure closed = watcher
forward watcher ended closed = watcher

unfoldable pub forward_all : Watcher → List (Item × Bool) → Watcher
unfolding forward
forward_all watcher [] = watcher
forward_all watcher ((item, closed) ∷ items) =
    forward_all (if watcher.running then forward watcher item closed else watcher) items

module _ (env : Env) (subs : Subscriptions env) where
  open env use {World}

  -- The stream of a key's changes, or none for a receiver that is closed from the start.
  unfoldable pub watch_redis_key : AppConfig → Text → World → Option subs.Stream × World
  unfolding allow_keyspace_notification get_redis_address_and_port get_redis_url
  watch_redis_key config key w =
      let (ignored, w1) = allow_keyspace_notification env (get_redis_url config) w in
      elim (get_redis_address_and_port config) [
        | err e ↦ (none, w1)
        | ok address ↦
            let (r, w2) =
              (subs.pubsub_connect address.0 address.1 >>= λ pubsub.
              subs.psubscribe pubsub (codes "__keyspace@0__:" ++ key))
                w1 in
            (to_option r, w2)
      ]
