-- ===== src/Topics.antt =====
-- core/src/topic_manager.rs: which connections a node keeps open for a topic. A task that is started
-- is an entry of a log, with what it is started with; a `broadcast::Sender` is a number. The order in
-- which a `HashSet` is walked is a parameter.
pub mod Handlers
pub mod Loop
pub mod Reconcile
pub mod Setup
pub mod Roles
pub mod Discovery
pub mod SignalIds
use fogros2_sgc.Base.{
  ℕ, ◌+◌, ◌-◌, Bool, true, false, not, ◌&&◌, ◌||◌, Option, none, some, List, [], ◌∷◌, ◌++◌,
  if◌then◌else◌, retain,
}
use fogros2_sgc.Text.{Text}
use fogros2_sgc.Text.Sets.{lookup, insert, remove, contains}
use fogros2_sgc.Name.{
  name_eq, show_name, GdpName, Connection, connection_id, is_node_involved, parse_connection,
  show_connection,
}
use fogros2_sgc.Routing.{is_proxy}

-- The identifier of this node at the signaling server, and the one to dial.
unfoldable pub generate_signal_ids : GdpName → Connection → GdpName → Text × Option Text
unfolding show_name name_eq
generate_signal_ids topic c me =
    let at_publisher =
      show_name topic ++ b'-' ∷ (show_name c.publisher ++ b'-' ∷ show_name c.subscriber) in
    let at_subscriber =
      show_name topic ++ b'-' ∷ (show_name c.subscriber ++ b'-' ∷ show_name c.publisher) in
    if name_eq c.publisher me then (at_publisher, none) else (at_subscriber, some at_publisher)

-- What the manager starts or signals. `establishes` is the task of `establish_connection`.
pub data Effect : Type 0 where
  establishes : ℕ → Text × Option Text → Bool → Effect
  shuts_down : ℕ → Effect
  attaches : Effect
  rejoins : Effect

pub record Manager : Type 0 where
  pub connections : List (Text × ℕ)
  pub edge_set : List Text
  pub next_shutdown : ℕ
  pub log : List Effect

-- `connections.contains_key(..)`
abbrev pub has_key : List (Text × ℕ) → Text → Bool
has_key m k = elim (lookup k m) [ none ↦ false | some v ↦ true ]

-- `HashSet::insert` of each connection's text.
unfoldable pub edge_texts : List Text → List Connection → List Text
unfolding show_connection contains
edge_texts set [] = set
edge_texts set (c ∷ cs) =
    edge_texts (if contains set (show_connection c) then set else set ++ show_connection c ∷ []) cs

abbrev pub difference : List Text → List Text → List Text
difference xs ys = retain (λ s. not (contains ys s)) xs

-- `filter(|c| is_node_involved(c, my_gdp_name))`
unfoldable pub relevant : GdpName → List Connection → List Connection
unfolding is_node_involved retain
relevant me = retain (λ c. is_node_involved c me)

abbrev any_connection : (Connection → Bool) → List Connection → Bool
any_connection p [] = false
any_connection p (c ∷ cs) = p c || any_connection p cs

module _ (topic me : GdpName) where
  unfoldable pub establish_connection : Manager → Connection → Manager
  unfolding generate_signal_ids name_eq connection_id insert
  establish_connection m c = record m {
    connections = insert (connection_id topic c) m.next_shutdown m.connections;
    next_shutdown = m.next_shutdown + 1;
    log =
        m.log
        ++ establishes m.next_shutdown (generate_signal_ids topic c me) (name_eq c.publisher me)
          ∷ [];
  }

  -- The result is not used by the caller.
  unfoldable pub handle_connection_added : Manager → Text → Manager
  unfolding parse_connection is_node_involved connection_id lookup establish_connection
  handle_connection_added m s = elim (parse_connection s) [
    | none ↦ m
    | some c ↦
        if not (is_node_involved c me)
        then m
        else if has_key m.connections (connection_id topic c)
        then m
        else establish_connection m c
  ]

  unfoldable pub handle_connection_removed : Manager → Text → Manager
  unfolding parse_connection connection_id lookup remove
  handle_connection_removed m s = elim (parse_connection s) [
    | none ↦ m
    | some c ↦ elim (lookup (connection_id topic c) m.connections) [
      | none ↦ m
      | some shutdown ↦ record m {
        connections = remove (connection_id topic c) m.connections;
        log = m.log ++ shuts_down shutdown ∷ [];
      }
    ]
  ]

  unfoldable pub remove_all : Manager → List Text → Manager
  unfolding handle_connection_removed
  remove_all m [] = m
  remove_all m (s ∷ ss) = remove_all (handle_connection_removed m s) ss

  unfoldable pub add_all : Manager → List Text → Manager
  unfolding handle_connection_added
  add_all m [] = m
  add_all m (s ∷ ss) = add_all (handle_connection_added m s) ss

  -- The tasks of a node that has no parent edge.
  unfoldable pub rejoin : Bool → Bool → List Connection → List Effect
  unfolding name_eq
  rejoin is_publisher is_proxy all_edges =
      if any_connection (λ c. name_eq c.subscriber me) all_edges
      then []
      else (if not is_publisher && not is_proxy then attaches ∷ [] else [])
        ++ (if is_proxy && any_connection (λ c. name_eq c.publisher me) all_edges
            then rejoins ∷ []
            else [])

  -- The body of the loop of `manage_topic_connections`, on the connections that were read.
  unfoldable pub reconcile :
      (List Text → List Text) → Bool → Bool → List Connection → Manager → Manager
  unfolding relevant edge_texts remove_all add_all rejoin contains retain
  reconcile order is_publisher is_proxy all_edges m =
      let new_edge_set = edge_texts [] (relevant me all_edges) in
      let m1 = remove_all m (order (difference m.edge_set new_edge_set)) in
      let m2 = add_all m1 (order (difference new_edge_set m.edge_set)) in
      record m2 { edge_set = new_edge_set; log = m2.log ++ rejoin is_publisher is_proxy all_edges }
