-- ===== src/Tests/Topics.antt =====
-- The topic manager on a few edges.
use fogros2_sgc.Base.{ℕ, ◌≡◌, refl, ap, true, false, none, some, [], ◌∷◌, arith}
use fogros2_sgc.Text.{codes}
use fogros2_sgc.Topics.{has_key, Manager, reconcile, generate_signal_ids}
use fogros2_sgc.Topics.SignalIds.{signal_ids_meet}
use fogros2_sgc.Name.{Connection, GdpName, IsBytes, connection_id, show_name}
use fogros2_sgc.Signaling.{parse_client_id}
use fogros2_sgc.Topics.Loop.{
  reads, fresh, manage, left_after_try_recv, manage_topic_connections, on_read,
}
use fogros2_sgc.Topics.Loop.Follows.{
  latest, Follows, fresh-Follows, manage-failed_read, manage_topic_connections-Follows,
  on_read-Follows,
}
use fogros2_sgc.Tests.Coder.{state_codec}
use fogros2_sgc.Redis.{Env, get_string}
use fogros2_sgc.Tests.Server.{lone_server}
use fogros2_sgc.Base.Result.{err}

abbrev node : ℕ → GdpName
node n = record { byte0 = 0; byte1 = 0; byte2 = 0; byte3 = n }

one_bytes : IsBytes (node 1)
one_bytes = omega arith

two_bytes : IsBytes (node 2)
two_bytes = omega arith

three_bytes : IsBytes (node 3)
three_bytes = omega arith

abbrev edge : Connection
edge = record { publisher = node 1; subscriber = node 2 }

abbrev far_edge : Connection
far_edge = record { publisher = node 1; subscriber = node 3 }

signal_ids_meet_example :
    let at_publisher = generate_signal_ids (node 3) edge (node 1) in
    let at_subscriber = generate_signal_ids (node 3) edge (node 2) in
    (at_publisher.1 ≡ none)
    × (at_subscriber.1 ≡ some at_publisher.0)
    × (parse_client_id at_publisher.0 ≡ some (show_name (node 3), show_name (node 1)))
    × (parse_client_id at_subscriber.0 ≡ some (show_name (node 3), show_name (node 2)))
signal_ids_meet_example =
    signal_ids_meet (node 3) edge three_bytes one_bytes two_bytes
      (λ e. omega (arith, ap (λ (g : GdpName). g.byte3) e))

-- The server without edges, and one that refuses connections.
manage_topic_connections-Follows_example :
    Follows
      (node 3)
      (node 2)
      three_bytes
      (manage_topic_connections lone_server state_codec []
        (node 3)
        (node 2)
        (λ xs. xs)
        false
        false
        (λ w. w)
        true
        (record { sent = 2; running = true })
        []).0
      (latest [] (
        reads lone_server state_codec []
          (node 3)
          (node 2)
          (λ xs. xs)
          false
          false
          (λ w. w)
          (left_after_try_recv true 2)
          []))
manage_topic_connections-Follows_example =
    manage_topic_connections-Follows (node 3) (node 2) three_bytes lone_server state_codec []
      (λ xs. xs) false false (λ w. w) (λ xs s. refl) true (record { sent = 2; running = true }) []

abbrev down_server : Env
down_server = record lone_server { get_connection = λ c w. (err (codes "refused"), w) }

abbrev joined_up : Manager
joined_up = reconcile (node 3) (node 2) (λ xs. xs) false false (edge ∷ []) fresh

manage-failed_read_example :
    has_key
      (manage down_server state_codec []
        (node 3)
        (node 2)
        (λ xs. xs)
        false
        false
        (λ w. w)
        1
        joined_up
        []).0.connections
      (connection_id (node 3) edge)
    ≡ false
unfolding get_string on_read
manage-failed_read_example =
    manage-failed_read (node 3) (node 2) three_bytes down_server state_codec [] (λ xs. xs) false
      false (λ w. w) (λ xs s. refl) joined_up (edge ∷ []) [] (codes "refused") edge
      (on_read-Follows (node 3) (node 2) three_bytes down_server state_codec [] (λ xs. xs) false
        false (λ w. w) (λ xs s. refl) fresh [] (edge ∷ []) (one_bytes, two_bytes, tt)
        (fresh-Follows (node 3) (node 2) three_bytes))
      refl one_bytes two_bytes
