-- ===== src/Signaling/Cleanup.antt =====
-- signaling/src/main.rs, the cleanup of the routing state: `disconnect_node` over the Redis server.
-- Its `RoutingState` has no `attach_ms`. `build_children_map` and the breadth-first loop are those of
-- core/src/routing.rs, word for word, and `atomic_update` is its `try_atomic_update`.
pub mod Debounce
pub mod Converge
pub mod Pruned
pub mod Safe
use fogros2_sgc.Base.{
  ℕ, zero, suc, ◌+◌, ◌-◌, Bool, true, false, not, ◌||◌, Option, none, some, List, [], ◌++◌,
  if◌then◌else◌, ltb, length, retain,
}
use fogros2_sgc.Text.{Text, ◌==◌, codes}
use fogros2_sgc.Routing.{Edge}
use fogros2_sgc.Routing.Update.{Codec}
use fogros2_sgc.Redis.{get, connect, hdel, or_default, Env, try_atomic_update}
use fogros2_sgc.Routing.Children.{build_children_map}
use fogros2_sgc.Routing.Bfs.{subtree_of}
use fogros2_sgc.Text.Blank.{is_blank}
use fogros2_sgc.Base.Result.{ok, err, Result}
use fogros2_sgc.Text.Sets.{contains}
use fogros2_sgc.Routing.Tree.{outside}

pub record Stored : Type 0 where
  pub publishers : List Text
  pub proxies : List Text
  pub edges : List Edge

abbrev without : Text → List Text → List Text
without node = retain (λ p. not (p == node))

-- The state without the node: its subtree's edges go, and its own registrations.
unfoldable pub prune : Stored → Text → Stored
unfolding subtree_of build_children_map contains retain
prune st node = record {
  publishers = without node st.publishers;
  proxies = without node st.proxies;
  edges = retain (outside (subtree_of st.edges (build_children_map st.edges) node)) st.edges;
}

-- `proxies_removed > 0 || publishers_removed > 0`
abbrev pub unregisters : Stored → Text → Bool
unregisters st node =
    ltb 0 (length st.proxies - length (without node st.proxies))
    || ltb 0 (length st.publishers - length (without node st.publishers))

module _ (codec : Codec Stored) where
  -- The parsed value, or none where the source returns.
  unfoldable pub read_stored : Text → Option Stored
  unfolding is_blank
  read_stored old =
      if is_blank old
      then some (record { publishers = []; proxies = []; edges = [] })
      else codec.from_str old

  unfoldable pub stored_json : Stored → Text
  stored_json st = elim (codec.to_string st) [ none ↦ codes "{}" | some s ↦ s ]

module _ (env : Env) (codec : Codec Stored) (url : Text) where
  unfoldable pub cleanup_gdpname_map : env.Conn → Text → env.World → env.World
  cleanup_gdpname_map con node w = (env.query (Unit {0}) con (hdel (codes "gdpname_map") node) w).1

  -- What follows the attempt to write.
  unfoldable pub finish :
      env.Conn
      → Text
      → Stored
      → Result env.RedisError Bool
      → (env.World → env.World)
      → env.World
      → env.World
  unfolding cleanup_gdpname_map
  finish con node st (err e) again w = w
  finish con node st (ok true) again w =
      if unregisters st node then cleanup_gdpname_map con node w else w
  finish con node st (ok false) again w = again w

  unfoldable pub node_rounds : Text → Text → ℕ → env.World → env.World
  unfolding connect read_stored stored_json prune try_atomic_update finish
  node_rounds key node zero w = w
  node_rounds key node (suc rounds) w =
      let (opened, w1) = connect env url w in
      elim opened [
        | err e ↦ w1
        | ok con ↦
            let (reply, w2) = env.query (Option Text) con (get key) w1 in
            let old : Text = elim reply [ ok v ↦ or_default v | err e ↦ [] ] in
            elim (read_stored codec old) [
              | none ↦ w2
              | some st ↦
                  let (done, w3) =
                    try_atomic_update env url key (stored_json codec (prune st node)) old w2 in
                  finish con node st done (node_rounds key node rounds) w3
            ]
      ]

  unfoldable pub disconnect_node : Text → Text → env.World → env.World
  unfolding node_rounds
  disconnect_node topic_gdp node w = node_rounds (topic_gdp ++ codes "-routing") node 32 w
