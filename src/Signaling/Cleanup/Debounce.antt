-- ===== src/Signaling/Cleanup/Debounce.antt =====
-- signaling/src/main.rs, the end of `handle_client`: the client leaves, and after 1500 ms its node is
-- disconnected if no connection of it is there. What other tasks do in that time is a parameter.
use fogros2_sgc.Base.{
  ℕ, ◌≡◌, refl, ap, ◌∙◌, inl, inr, true, none, some, List, [], ◌∷◌, arith, if◌then◌else◌,
  Bool-cases,
}
use fogros2_sgc.Text.{Text, ◌==◌, eq_iff, eq_refl}
use fogros2_sgc.Signaling.{is_of, Hub, Client, leave, parse_client_id, still_connected}
use fogros2_sgc.Signaling.Cleanup.{Stored, disconnect_node}
use fogros2_sgc.Redis.{Env}
use fogros2_sgc.Routing.Update.{Codec}
use fogros2_sgc.Text.Sets.{lookup}

module _ (env : Env) (codec : Codec Stored) (url : Text)
    (waits : Hub × env.World → Hub × env.World) where
  -- The spawned task, for a topic and a node.
  unfoldable pub cleanup_task : Text → Text → Hub × env.World → Hub × env.World
  unfolding still_connected disconnect_node
  cleanup_task topic_gdp self_node (hub, w) =
      if still_connected hub.clients topic_gdp self_node
      then (hub, w)
      else (hub, disconnect_node env codec url topic_gdp self_node w)

  unfoldable pub end_session : Hub → Text → ℕ → env.World → Hub × env.World
  unfolding leave parse_client_id cleanup_task
  end_session hub id my_generation w =
      let left = leave hub id my_generation in
      elim (parse_client_id id) [
        | none ↦ (left, w)
        | some (topic_gdp, self_node) ↦ cleanup_task topic_gdp self_node (waits (left, w))
      ]

  still_connected-lookup :
      (clients : List (Text × Client)) (id topic node : Text) (c : Client)
      → lookup id clients ≡ some c
      → parse_client_id id ≡ some (topic, node)
      → still_connected clients topic node ≡ true
  unfolding still_connected lookup
  still_connected-lookup [] id topic node c e p = absurd (cc (e))
  still_connected-lookup ((k, v) ∷ clients) id topic node c e p = elim (Bool-cases (k == id)) [
    | inl same ↦
        let here : parse_client_id k ≡ some (topic, node) =
          ap parse_client_id ((eq_iff k id).0 same) ∙ p in
        rw (here, is_of) (ground (arith, eq_refl topic, eq_refl node))
    | inr other ↦
        let later = still_connected-lookup clients id topic node c (rw other at e) p in
        ground (arith, later)
  ]

  -- If a client of the same topic and node is registered when the debounce is over, under the same
  -- identifier or another, then the end of a session leaves the routing state to what other tasks did.
  pub end_session-spares :
      (hub : Hub) (id other topic node : Text) (g : ℕ) (c : Client) (w : env.World)
      → parse_client_id id ≡ some (topic, node)
      → parse_client_id other ≡ some (topic, node)
      → lookup other (waits (leave hub id g, w)).0.clients ≡ some c
      → end_session hub id g w ≡ waits (leave hub id g, w)
  unfolding end_session cleanup_task
  end_session-spares hub id other topic node g c w p q there =
      let connected =
        still_connected-lookup (waits (leave hub id g, w)).0.clients other topic node c there q in
      rw (p, end_session) (rw (connected, cleanup_task) refl)
