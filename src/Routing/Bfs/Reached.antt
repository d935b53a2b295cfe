-- ===== src/Routing/Bfs/Reached.antt =====
-- The results of the breadth-first functions, as the callers see them.
use fogros2_sgc.Base.{ℕ, ◌≡◌, refl, ◌∙◌, ◌↔◌, true, List, map}
use fogros2_sgc.Text.{Text}
use fogros2_sgc.Routing.{Edge, is_intermediate, RoutingState}
use fogros2_sgc.Routing.Bfs.{
  start, enough, plain, Mode, bfs_intermediates, bfs_intermediates_with_depth, search_loop,
  subtree_of, whole_tree, with_depth,
}
use fogros2_sgc.Routing.Bfs.Walk.{Walk, seen-Distinct, seen-eq-out, seen_complete, seen_sound}
use fogros2_sgc.Routing.Children.{build_children_map}
use mathlib.Core.List.{map-id}
use fogros2_sgc.Text.Sets.{contains, Distinct}

-- `bfs_intermediates_with_depth` lists each publisher or proxy that a walk of publishers and proxies
-- from the root leads to, and the root, once; and no other node.
pub bfs_with_depth_reaches :
    (st : RoutingState) (root : Text)
    → let nodes =
        map
          (λ (n : Text × ℕ). n.0)
          (bfs_intermediates_with_depth st root (build_children_map st.edges)) in
      Distinct nodes
      × ((v : Text) → (contains nodes v ≡ true) ↔ Walk (is_intermediate st) st.edges root v)
unfolding bfs_intermediates_with_depth
bfs_with_depth_reaches st root = (
  rw (← same) (seen-Distinct mode named st.edges (root, 0)),
  λ v. (
    λ k. seen_sound mode named st.edges (root, 0) v (rw same k),
    λ w. rw (← same) (seen_complete mode named st.edges (root, 0) w),
  ),
)
  where
    mode : Mode (Text × ℕ)
    mode = with_depth st

    named : (n : Text × ℕ) (c : Text) → mode.name (mode.next n c) ≡ c
    named n c = refl

    same :
        (search_loop mode
          (build_children_map st.edges)
          (enough st.edges)
          (start mode (root, 0))).seen
        ≡ map
            (λ (n : Text × ℕ). n.0)
            (search_loop mode
              (build_children_map st.edges)
              (enough st.edges)
              (start mode (root, 0))).out
    same = seen-eq-out mode named st.edges (root, 0)

-- `bfs_intermediates` lists each publisher or proxy that a walk of publishers and proxies from the
-- root leads to, and the root, once; and no other node.
pub bfs_intermediates_reaches :
    (st : RoutingState) (root : Text)
    → let nodes = bfs_intermediates st root (build_children_map st.edges) in
      Distinct nodes
      × ((v : Text) → (contains nodes v ≡ true) ↔ Walk (is_intermediate st) st.edges root v)
unfolding bfs_intermediates
bfs_intermediates_reaches st root = (
  rw (← same) (seen-Distinct mode named st.edges root),
  λ v. (
    λ k. seen_sound mode named st.edges root v (rw same k),
    λ w. rw (← same) (seen_complete mode named st.edges root w),
  ),
)
  where
    mode : Mode Text
    mode = plain st

    named : (n c : Text) → mode.name (mode.next n c) ≡ c
    named n c = refl

    same :
        (search_loop mode (build_children_map st.edges) (enough st.edges) (start mode root)).seen
        ≡ (search_loop mode (build_children_map st.edges) (enough st.edges) (start mode root)).out
    same =
        seen-eq-out mode named st.edges root
        ∙ map-id
            (search_loop mode (build_children_map st.edges) (enough st.edges) (start mode root)).out

-- The set of `disconnect` holds exactly the nodes below the given one, and that one.
pub subtree_of_iff :
    (es : List Edge) (node v : Text)
    → (contains (subtree_of es (build_children_map es) node) v ≡ true) ↔ Walk (λ c. true) es node v
unfolding subtree_of
subtree_of_iff es node v = (
  seen_sound whole_tree (λ n c. refl) es node v,
  λ w. seen_complete whole_tree (λ n c. refl) es node w,
)
