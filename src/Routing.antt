-- ===== src/Routing.antt =====
-- core/src/routing.rs: the routing state of a topic and the operations of `impl RoutingState`.
-- The children follow the file: `Fanout` the environment's settings, `Children` the maps of
-- children, `Bfs` the breadth-first loops, `Tree` what subscribing and disconnecting do to the
-- edges, `Update` the compare-and-swap loops around them.
pub mod Bfs
pub mod Fanout
pub mod Tree
pub mod Update
pub mod Children
pub mod Edges
use fogros2_sgc.Base.{
  ℕ, ◌≡◌, Bool, true, false, ◌&&◌, ◌||◌, not, List, [], ◌∷◌, ◌++◌, if◌then◌else◌, retain,
}
use fogros2_sgc.Base.Int.{ℤ}
use fogros2_sgc.Text.{Text, ◌==◌}
use fogros2_sgc.Text.Sets.{contains}

pub record Edge : Type 0 where
  pub parent : Text
  pub child : Text

-- Names are hexadecimal `GDPName`s. `attach_ms` maps a node to the time of its last attachment.
pub record RoutingState : Type 0 where
  pub publishers : List Text
  pub proxies : List Text
  pub edges : List Edge
  pub attach_ms : List (Text × ℤ)

-- `RoutingState::default()`
abbrev pub blank : RoutingState
blank = record { publishers = []; proxies = []; edges = []; attach_ms = [] }

unfoldable pub has_publisher : RoutingState → Text → Bool
has_publisher st n = contains st.publishers n

unfoldable pub has_proxy : RoutingState → Text → Bool
has_proxy st n = contains st.proxies n

unfoldable pub add_publisher : RoutingState → Text → RoutingState
unfolding has_publisher
add_publisher st n =
    if not (has_publisher st n) then record st { publishers = st.publishers ++ n ∷ [] } else st

unfoldable pub add_proxy : RoutingState → Text → RoutingState
unfolding has_proxy
add_proxy st n = if not (has_proxy st n) then record st { proxies = st.proxies ++ n ∷ [] } else st

unfoldable pub is_proxy : RoutingState → Text → Bool
unfolding has_proxy
is_proxy st n = has_proxy st n

unfoldable pub is_intermediate : RoutingState → Text → Bool
unfolding has_publisher has_proxy
is_intermediate st n = has_publisher st n || has_proxy st n

-- Whether some edge of the list joins the two.
unfoldable pub joined : List Edge → Text → Text → Bool
joined [] p c = false
joined (e ∷ es) p c = e.parent == p && e.child == c || joined es p c

unfoldable pub has_edge : RoutingState → Text → Text → Bool
unfolding joined
has_edge st p c = joined st.edges p c

unfoldable pub add_edge_unique : RoutingState → Text → Text → RoutingState
unfolding has_edge
add_edge_unique st p c =
    if not (has_edge st p c)
    then record st { edges = st.edges ++ record { parent = p; child = c } ∷ [] }
    else st

unfoldable pub remove_edge : RoutingState → Text → Text → RoutingState
unfolding retain
remove_edge st p c = record st {
  edges = retain (λ e. not (e.parent == p && e.child == c)) st.edges;
}

-- Whether some edge of the list leads to the node.
unfoldable pub has_parent_in : List Edge → Text → Bool
has_parent_in [] n = false
has_parent_in (e ∷ es) n = e.child == n || has_parent_in es n

unfoldable pub has_parent : RoutingState → Text → Bool
unfolding has_parent_in
has_parent st n = has_parent_in st.edges n
