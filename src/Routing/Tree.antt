-- ===== src/Routing/Tree.antt =====
-- core/src/routing.rs, what `subscribe` and `disconnect` do to the tree, without the server: the
-- choice of candidates, the graft of a proxy, the removal of a subtree.
pub mod Converge
pub mod Valid
pub mod Detach
pub mod Choice
use fogros2_sgc.Base.{
  ℕ, ◌-◌, Bool, true, ◌&&◌, ◌||◌, not, List, [], ◌∷◌, ◌++◌, none, some, if◌then◌else◌, min, max,
  length, take, retain, sort_by, ltb, nat_beq,
}
use fogros2_sgc.Base.Int.{ℤ, ltb_ℤ}
use fogros2_sgc.Text.{Text, le_text}
use fogros2_sgc.Text.Sets.{contains, lookup, insert}
use fogros2_sgc.Routing.{
  RoutingState, Edge, is_proxy, is_intermediate, add_edge_unique, remove_edge,
}
use fogros2_sgc.Routing.Children.{build_children_map}
use fogros2_sgc.Routing.Bfs.{subtree_of}

-- `state.attach_ms.get(a).copied().unwrap_or(0)`
abbrev pub attached_at : RoutingState → Text → ℤ
attached_at st a = elim (lookup a st.attach_ms) [ none ↦ ℤ.pos 0 | some t ↦ t ]

-- `entry(n).or_insert(t)`
abbrev pub or_insert : Text → ℤ → List (Text × ℤ) → List (Text × ℤ)
or_insert n t m = elim (lookup n m) [ none ↦ insert n t m | some old ↦ m ]

-- The loop that gives the listeners among the children a time.
unfoldable pub seed_attach : RoutingState → ℤ → List Edge → List (Text × ℤ) → List (Text × ℤ)
unfolding is_intermediate lookup insert
seed_attach st t [] m = m
seed_attach st t (e ∷ es) m =
    seed_attach st t es (if not (is_intermediate st e.child) then or_insert e.child t m else m)

-- `candidates.sort_by(...)`: deeper nodes first, then by name.
abbrev pub deeper : Text × ℕ → Text × ℕ → Bool
deeper a b = ltb b.1 a.1 || nat_beq a.1 b.1 && le_text a.0 b.0

unfoldable pub candidates : List (Text × ℕ) → List (Text × ℕ)
unfolding sort_by le_text
candidates = sort_by deeper

-- `non_proxy_children.sort_by(...)`: older attachments first, then by name.
abbrev pub older : RoutingState → Text → Text → Bool
older st a b =
    ltb_ℤ (attached_at st a) (attached_at st b)
    || not (ltb_ℤ (attached_at st b) (attached_at st a)) && le_text a b

abbrev pub listeners : RoutingState → List Text → List Text
listeners st = retain (λ c. not (is_proxy st c))

-- `ch.is_empty() || ch.iter().all(|c| st.is_proxy(c))`: there is no child to move.
unfoldable pub all_proxies : RoutingState → List Text → Bool
unfolding is_proxy
all_proxies st [] = true
all_proxies st (c ∷ cs) = is_proxy st c && all_proxies st cs

abbrev pub move_count : ℕ → ℕ → ℕ
move_count fanout n = max (min n (fanout - 1)) 1

-- The children that a graft moves under the new proxy.
unfoldable pub to_move : ℕ → RoutingState → List Text → List Text
unfolding retain is_proxy sort_by lookup le_text
to_move fanout st ch =
    let found = listeners st ch in
    take (move_count fanout (length found)) (sort_by (older st) found)

-- The loop that moves children from `n` to the proxy `q`.
unfoldable pub move_children : RoutingState → Text → Text → ℤ → List Text → RoutingState
unfolding remove_edge add_edge_unique insert
move_children st n q ts [] = st
move_children st n q ts (c ∷ cs) =
    let moved = add_edge_unique (remove_edge st n c) q c in
    move_children (record moved { attach_ms = insert c ts moved.attach_ms }) n q ts cs

-- The new proxy goes under `n`, the subscriber and the moved children go under the new proxy.
unfoldable pub graft : RoutingState → Text → Text → Text → ℤ → List Text → RoutingState
unfolding move_children
graft st n q subscriber ts moved =
    move_children (add_edge_unique (add_edge_unique st n q) q subscriber) n q ts moved

-- `used_nodes_set`
unfoldable pub edge_nodes : List Edge → List Text
edge_nodes [] = []
edge_nodes (e ∷ es) = e.parent ∷ e.child ∷ edge_nodes es

unfoldable pub used_nodes_set : RoutingState → List Text
unfolding edge_nodes
used_nodes_set st = edge_nodes st.edges ++ st.publishers

-- The edges that `disconnect` keeps.
abbrev pub outside : List Text → Edge → Bool
outside subtree e = not (contains subtree e.parent) && not (contains subtree e.child)

unfoldable pub detach : RoutingState → Text → RoutingState
unfolding subtree_of build_children_map contains retain
detach st node = record st {
  edges = retain (outside (subtree_of st.edges (build_children_map st.edges) node)) st.edges;
}
