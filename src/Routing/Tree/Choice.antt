-- ===== src/Routing/Tree/Choice.antt =====
-- What `subscribe` chooses: a proxy that no edge touches, and children that are listeners of the
-- full node, at least one and few enough for the new proxy.
use fogros2_sgc.Base.{
  length-sort_by, sort_by, ℕ, zero, suc, ◌≤◌, ◌<◌, ◌≡◌, refl, true, false, not, List, [], ◌∷◌,
  arith, length, take, retain,
}
use fogros2_sgc.Text.{Text, ◌==◌, eq_iff}
use fogros2_sgc.Routing.{Edge, is_proxy, joined, RoutingState}
use fogros2_sgc.Routing.Tree.{
  older, move_count, listeners, all_proxies, edge_nodes, to_move, used_nodes_set,
}
use fogros2_sgc.Text.Sets.{
  contains-retain, contains-sort_by, contains-take, contains-append, contains,
}
use fogros2_sgc.Routing.Edges.{degree, children_of}

edge_nodes-fresh :
    (es : List Edge) (q : Text) → contains (edge_nodes es) q ≡ false → degree es q ≡ 0
unfolding edge_nodes contains children_of
edge_nodes-fresh [] q h = refl
edge_nodes-fresh (e ∷ es) q h = ground (arith, edge_nodes-fresh es q)

edge_nodes-parent :
    (es : List Edge) (n c : Text) → joined es n c ≡ true → contains (edge_nodes es) n ≡ true
unfolding edge_nodes contains joined
edge_nodes-parent [] n c h = absurd (cc)
edge_nodes-parent (e ∷ es) n c h = ground (arith, edge_nodes-parent es n c)

-- A node that is not in use has no children, and is no parent of anything.
pub unused-degree :
    (st : RoutingState) (q : Text) → contains (used_nodes_set st) q ≡ false → degree st.edges q ≡ 0
unfolding used_nodes_set
unused-degree st q h =
    edge_nodes-fresh st.edges q
      (ground (arith, contains-append (edge_nodes st.edges) st.publishers q))

pub unused-ne :
    (st : RoutingState) (q n c : Text)
    → contains (used_nodes_set st) q ≡ false
    → joined st.edges n c ≡ true
    → (q == n) ≡ false
unfolding used_nodes_set
unused-ne st q n c h j = ground (
  arith,
  edge_nodes-parent st.edges n c j,
  contains-append (edge_nodes st.edges) st.publishers q,
  eq_iff q n,
)

-- A list that is not all proxies has a listener.
pub listeners-nonempty :
    (st : RoutingState) (ch : List Text) → all_proxies st ch ≡ false → 0 < length (listeners st ch)
unfolding all_proxies retain
listeners-nonempty st [] h = absurd (cc)
listeners-nonempty st (c ∷ cs) h = ground (arith, listeners-nonempty st cs)

pub length-take_of_le : (n : ℕ) (xs : List Text) → n ≤ length xs → length (take n xs) ≡ n
length-take_of_le zero xs h = omega arith
length-take_of_le (suc n) [] h = absurd (omega arith)
length-take_of_le (suc n) (x ∷ xs) h = omega (arith, length-take_of_le n xs)

-- The moved children are children of the node.
pub contains-to_move :
    (f : ℕ) (st : RoutingState) (ch : List Text) (c : Text)
    → contains (to_move f st ch) c ≡ true
    → (contains ch c ≡ true) × (is_proxy st c ≡ false)
unfolding to_move
contains-to_move f st ch c h =
    let found = listeners st ch in
    let sorted = sort_by (older st) found in
    ground (
      arith,
      contains-take (move_count f (length found)) sorted c,
      contains-sort_by (older st) found c,
      contains-retain (λ x. not (is_proxy st x)) ch c,
    )

-- For a fanout of two or more and children that are not all proxies, a graft moves at least one child
-- and fewer than the fanout.
pub length-to_move :
    (f : ℕ) (st : RoutingState) (ch : List Text)
    → 2 ≤ f
    → all_proxies st ch ≡ false
    → (0 < length (to_move f st ch)) × (length (to_move f st ch) < f)
unfolding to_move
length-to_move f st ch two h =
    let found = listeners st ch in
    let some_found = listeners-nonempty st ch h in
    let size =
      length-take_of_le (move_count f (length found)) (sort_by (older st) found)
        (omega (arith, length-sort_by (older st) found)) in
    (omega arith, omega arith)
