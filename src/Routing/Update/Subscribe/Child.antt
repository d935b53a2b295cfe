-- ===== src/Routing/Update/Subscribe/Child.antt =====
-- After an edge is added, or a proxy grafted, the subscriber has a parent.
use fogros2_sgc.Base.{◌≡◌, ◌∙◌, true, not, ◌&&◌, List, [], ◌∷◌, arith}
use fogros2_sgc.Text.{Text, ◌==◌, eq_iff, eq_refl}
use fogros2_sgc.Base.Int.{ℤ}
use fogros2_sgc.Routing.{joined, Edge, RoutingState, add_edge_unique, has_parent_in, remove_edge}
use fogros2_sgc.Routing.Edges.{joined-add, joined-retain}
use fogros2_sgc.Routing.Tree.{graft, move_children}
use fogros2_sgc.Text.Sets.{insert}

pub joined-has_parent_in :
    (es : List Edge) (p c : Text) → joined es p c ≡ true → has_parent_in es c ≡ true
unfolding joined has_parent_in
joined-has_parent_in [] p c h = absurd (cc)
joined-has_parent_in (e ∷ es) p c h = ground (arith, joined-has_parent_in es p c)

remove_edge-joined :
    (st : RoutingState) (n x p c : Text)
    → joined (remove_edge st n x).edges p c ≡ (not (n == p && x == c) && joined st.edges p c)
unfolding remove_edge
remove_edge-joined st n x p c =
    joined-retain (λ e. not (e.parent == n && e.child == x)) st.edges p c
    ∙ ground (arith, eq_iff p n, eq_iff n p, eq_iff c x, eq_iff x c)

move_children-child :
    (n q s : Text) (ts : ℤ) (cs : List Text) (st : RoutingState)
    → joined st.edges q s ≡ true
    → joined (move_children st n q ts cs).edges q s ≡ true
unfolding move_children
move_children-child n q s ts [] st h = h
move_children-child n q s ts (c ∷ cs) st h =
    let moved = add_edge_unique (remove_edge st n c) q c in
    move_children-child n q s ts cs (record moved { attach_ms = insert c ts moved.attach_ms })
      (ground
        (arith, joined-add (remove_edge st n c) q c q s, remove_edge-joined st n c q s, eq_refl q))

pub graft-child :
    (st : RoutingState) (n q s : Text) (ts : ℤ) (cs : List Text)
    → has_parent_in (graft st n q s ts cs).edges s ≡ true
unfolding graft
graft-child st n q s ts cs =
    joined-has_parent_in
      (move_children (add_edge_unique (add_edge_unique st n q) q s) n q ts cs).edges q s
      (move_children-child n q s ts cs (add_edge_unique (add_edge_unique st n q) q s)
        (ground (arith, joined-add (add_edge_unique st n q) q s q s, eq_refl q, eq_refl s)))
