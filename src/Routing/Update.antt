-- ===== src/Routing/Update.antt =====
-- core/src/routing.rs, the operations on the shared state: read the value of `{topic}-routing`,
-- change it, and write it back by compare-and-swap, in at most MAX_RETRIES rounds. The JSON codec
-- of serde is a parameter. Log lines are left out, and so is `log_state_summary`.
pub mod Subscribe
pub mod Keeps
pub mod Connections
pub mod Commit
pub mod After
pub mod Quiet
use fogros2_sgc.Base.{
  ℕ, zero, suc, ◌+◌, ◌*◌, true, false, List, [], ◌∷◌, ◌++◌, Option, none, some, min, if◌then◌else◌,
}
use fogros2_sgc.Base.Result.{ok, err}
use fogros2_sgc.Base.Exec.{Exec}
use fogros2_sgc.Text.{Text, codes}
use fogros2_sgc.Text.Blank.{is_blank}
use fogros2_sgc.Name.{GdpName, show_name, Connection, connection_from_str}
use fogros2_sgc.Redis.{Env, or_default, get_string, atomic_update}
use fogros2_sgc.Routing.{RoutingState, Edge, blank, add_publisher, add_proxy}
use fogros2_sgc.Routing.Tree.{detach}

-- `serde_json::from_str(s).ok()` and `serde_json::to_string(state).ok()`.
pub record Codec (S : Type 0) : Type 0 where
  pub from_str : Text → Option S
  pub to_string : S → Option Text

abbrev pub max_retries : ℕ
max_retries = 128

unfoldable pub routing_key : GdpName → Text
routing_key topic = show_name topic ++ codes "-routing"

module _ (codec : Codec RoutingState) where
  unfoldable pub parse_state : Text → RoutingState
  unfolding is_blank
  parse_state s =
      if is_blank s then blank else elim (codec.from_str s) [ none ↦ blank | some st ↦ st ]

  unfoldable pub to_json : RoutingState → Text
  to_json st = elim (codec.to_string st) [ none ↦ codes "{}" | some s ↦ s ]

-- `cas_backoff`: the product saturates only far above 50.
unfoldable pub cas_backoff : (env : Env) → ℕ → env.World → env.World
cas_backoff env attempt w = env.sleep_ms (min (2 * (attempt + 1)) 50) w

unfoldable pub edge_connections : List Edge → List Connection
unfolding connection_from_str
edge_connections [] = []
edge_connections (e ∷ es) =
    let rest = edge_connections es in
    elim (connection_from_str (e.parent ++ b'-' ∷ e.child)) [ ok c ↦ c ∷ rest | err e ↦ rest ]

module _ (env : Env) (codec : Codec RoutingState) (url : Text) (topic : GdpName) where
  open env use {World, error_text}

  -- `get_string(..).unwrap_or(None).unwrap_or_default()`: a failed read is an empty value.
  unfoldable pub read_value : World → Text × World
  unfolding get_string routing_key
  read_value w =
      let (r, w') = get_string env url (routing_key topic) w in
      (elim r [ ok v ↦ or_default v | err e ↦ [] ], w')

  -- The loop that `register_publisher`, `register_proxy` and `disconnect` share: at most so many
  -- rounds of one read, one change and one attempt to write.
  unfoldable pub update_loop : (RoutingState → RoutingState) → Text → ℕ → Exec World Text (Unit {0})
  unfolding read_value parse_state to_json atomic_update routing_key
  update_loop change failed zero w = (err failed, w)
  update_loop change failed (suc rounds) w =
      let (old, w1) = read_value w in
      let new = to_json codec (change (parse_state codec old)) in
      let (r, w2) = atomic_update env url (routing_key topic) new old 1 w1 in
      elim r [
        | err e ↦ (err (error_text e), w2)
        | ok true ↦ (ok tt, w2)
        | ok false ↦ update_loop change failed rounds w2
      ]

  unfoldable pub register_publisher : GdpName → Text → Exec World Text (Unit {0})
  unfolding update_loop add_publisher
  register_publisher publisher topic_name =
      update_loop (λ st. add_publisher st (show_name publisher))
        (codes "Failed to register publisher "
          ++ (show_name publisher
              ++ (codes " for topic " ++ (topic_name ++ codes " (CAS retries exceeded)"))))
        max_retries

  unfoldable pub register_proxy : GdpName → Text → Exec World Text (Unit {0})
  unfolding update_loop add_proxy
  register_proxy proxy topic_name =
      update_loop (λ st. add_proxy st (show_name proxy))
        (codes "Failed to register proxy "
          ++ (show_name proxy
              ++ (codes " for topic " ++ (topic_name ++ codes " (CAS retries exceeded)"))))
        max_retries

  unfoldable pub disconnect : GdpName → Exec World Text (Unit {0})
  unfolding update_loop detach
  disconnect node =
      update_loop (λ st. detach st (show_name node))
        (codes "Failed to disconnect "
          ++ (show_name node
              ++ (codes " from topic " ++ (show_name topic ++ codes " (CAS retries exceeded)"))))
        max_retries

  unfoldable pub current_connections : Exec World Text (List Connection)
  unfolding read_value parse_state edge_connections
  current_connections w =
      let (raw, w1) = read_value w in (ok (edge_connections (parse_state codec raw).edges), w1)
