-- ===== src/Routing/Tree/Valid/Overfull.antt =====
-- A fanout of one, which `fanout` accepts: the new proxy of a graft gets two children.
use fogros2_sgc.Base.{
  length-sort_by, length-append, sort_by, suc, ◌≡◌, refl, sym, subst, true, false, List, [], ◌∷◌,
  arith, length, take,
}
use fogros2_sgc.Text.{Text, ◌==◌, eq_iff, eq_refl}
use fogros2_sgc.Routing.{joined, add_edge_unique, remove_edge, RoutingState}
use fogros2_sgc.Routing.Edges.{
  other, degree, children_of, children_of-append, degree-add-le, degree-retain-other_ne,
  degree-zero-joined, joined-add, joined-retain,
}
use fogros2_sgc.Routing.Tree.Choice.{contains-to_move, length-take_of_le, listeners-nonempty}
use fogros2_sgc.Routing.Tree.{
  move_count, older, graft, listeners, all_proxies, move_children, to_move,
}
use fogros2_sgc.Base.Int.{ℤ}
use fogros2_sgc.Text.Sets.{contains}

-- With a fanout of one a graft still moves a child.
to_move-one :
    (st : RoutingState) (ch : List Text) → all_proxies st ch ≡ false → length (to_move 1 st ch) ≡ 1
unfolding to_move
to_move-one st ch h =
    let found = listeners st ch in
    let sorted = sort_by (older st) found in
    let one_moved : move_count 1 (length found) ≡ 1 = omega arith in
    subst (λ k. length (take k sorted) ≡ 1) (sym one_moved)
      (length-take_of_le 1 sorted
        (omega (arith, length-sort_by (older st) found, listeners-nonempty st ch h)))

one_long : (xs : List Text) → length xs ≡ 1 → (x : Text) × (xs ≡ x ∷ [])
one_long [] h = absurd (omega arith)
one_long (x ∷ []) h = (x, refl)
one_long (x ∷ y ∷ xs) h = absurd (omega arith)

degree-add_new :
    (st : RoutingState) (p c : Text)
    → joined st.edges p c ≡ false
    → degree (add_edge_unique st p c).edges p ≡ suc (degree st.edges p)
unfolding add_edge_unique children_of
degree-add_new st p c h = ground (
  arith,
  children_of-append st.edges (record { parent = p; child = c } ∷ []) p,
  length-append (children_of st.edges p) (c ∷ []),
  eq_refl p,
)

joined-add_self :
    (st : RoutingState) (p c : Text) → joined (add_edge_unique st p c).edges p c ≡ true
joined-add_self st p c = ground (arith, joined-add st p c p c, eq_refl p, eq_refl c)

degree-remove_ne :
    (st : RoutingState) (n c q : Text)
    → (n == q) ≡ false
    → degree (remove_edge st n c).edges q ≡ degree st.edges q
unfolding remove_edge
degree-remove_ne st n c q h = degree-retain-other_ne st.edges n c q h

graft_one :
    (st : RoutingState) (n q subscriber c : Text) (ts : ℤ)
    → (n == q) ≡ false
    → (subscriber == c) ≡ false
    → degree st.edges q ≡ 0
    → degree (graft st n q subscriber ts (c ∷ [])).edges q ≡ 2
unfolding graft move_children
graft_one st n q subscriber c ts ne other_node fresh = ground (
  arith,
  degree-add_new t q c (ground (arith, no_moved)),
  degree-remove_ne (add_edge_unique (add_edge_unique st n q) q subscriber) n c q ne,
  degree-add_new (add_edge_unique st n q) q subscriber (childless subscriber),
  only_q,
)
  where
    t : RoutingState
    t = remove_edge (add_edge_unique (add_edge_unique st n q) q subscriber) n c

    only_q : degree (add_edge_unique st n q).edges q ≡ 0
    only_q = ground (arith, degree-add-le st n q q)

    childless : (x : Text) → joined (add_edge_unique st n q).edges q x ≡ false
    childless x = degree-zero-joined (add_edge_unique st n q).edges q x only_q

    no_moved : joined t.edges q c ≡ false
    no_moved =
        unfold remove_edge in
        ground (
          arith,
          joined-retain (other n c) (add_edge_unique (add_edge_unique st n q) q subscriber).edges q
              c,
          joined-add (add_edge_unique st n q) q subscriber q c,
          childless c,
        )

-- With a fanout of one, in any state, the graft that `subscribe` makes at a node with a listener
-- gives an unused proxy two children, one more than the fanout allows, if the proxy is not the
-- node and the subscriber is not one of the listed children of the node.
pub graft_overfull :
    (st : RoutingState) (n q subscriber : Text) (ts : ℤ) (ch : List Text)
    → all_proxies st ch ≡ false
    → (n == q) ≡ false
    → contains ch subscriber ≡ false
    → degree st.edges q ≡ 0
    → degree (graft st n q subscriber ts (to_move 1 st ch)).edges q ≡ 2
unfolding contains
graft_overfull st n q subscriber ts ch listener ne new fresh =
    let (c, e) = one_long (to_move 1 st ch) (to_move-one st ch listener) in
    let c_child = (contains-to_move 1 st ch c (rw e (ground (arith, eq_refl c)))).0 in
    rw e (graft_one st n q subscriber c ts ne (ground (arith, eq_iff subscriber c, c_child)) fresh)
