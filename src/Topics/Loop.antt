-- ===== src/Topics/Loop.antt =====
-- core/src/topic_manager.rs, the loop of `manage_topic_connections`, over a Redis server. Between two
-- changes of the routing key other tasks and nodes act: that is a parameter. The watcher of the key is
-- the one of Redis/Watch.
pub mod Follows
use fogros2_sgc.Base.{ℕ, zero, suc, ◌-◌, Bool, List, [], ◌∷◌, if◌then◌else◌}
use fogros2_sgc.Text.{Text}
use fogros2_sgc.Topics.{Manager, reconcile}
use fogros2_sgc.Routing.Update.{Codec, current_connections}
use fogros2_sgc.Redis.{Env}
use fogros2_sgc.Redis.Watch.{Watcher}
use fogros2_sgc.Routing.{RoutingState, is_proxy}
use fogros2_sgc.Base.Result.{err, ok, Result}
use fogros2_sgc.Name.{Connection, GdpName}

-- Before any change.
abbrev pub fresh : Manager
fresh = record { connections = []; edge_set = []; next_shutdown = 0; log = [] }

-- `try_recv` takes a change that is there when the loop begins, and does nothing with it.
abbrev pub left_after_try_recv : Bool → ℕ → ℕ
left_after_try_recv early sent = if early then sent - 1 else sent

module _ (env : Env) (codec : Codec RoutingState) (url : Text) (topic me : GdpName)
    (order : List Text → List Text) (is_publisher is_proxy : Bool)
    (waits : env.World → env.World) where
  open env use {World}

  -- The rest of a turn, after the read: an error is logged.
  unfoldable pub on_read : Manager → Result Text (List Connection) → Manager
  unfolding reconcile
  on_read m (ok all_edges) = reconcile topic me order is_publisher is_proxy all_edges m
  on_read m (err e) = m

  unfoldable pub manage : ℕ → Manager → World → Manager × World
  unfolding on_read current_connections
  manage zero m w = (m, w)
  manage (suc changes) m w =
      let (r, w') = current_connections env codec url topic (waits w) in
      manage changes (on_read m r) w'

  -- The loop on the changes that the watcher has sent.
  unfoldable pub manage_topic_connections : Bool → Watcher → World → Manager × World
  unfolding manage
  manage_topic_connections early watcher w = manage (left_after_try_recv early watcher.sent) fresh w

  -- What the loop reads.
  unfoldable pub reads : ℕ → World → List (Result Text (List Connection))
  unfolding current_connections
  reads zero w = []
  reads (suc changes) w =
      let (r, w') = current_connections env codec url topic (waits w) in r ∷ reads changes w'
