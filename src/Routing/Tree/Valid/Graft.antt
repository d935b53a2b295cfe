-- ===== src/Routing/Tree/Valid/Graft.antt =====
-- Grafting an unused proxy under a full node keeps the fanout of both.
use fogros2_sgc.Base.{
  ℕ, ◌+◌, ◌≤◌, ◌<◌, ◌≡◌, refl, true, false, List, [], ◌∷◌, arith, length, if◌then◌else◌,
}
use fogros2_sgc.Text.{Text, ◌==◌, eq_iff}
use fogros2_sgc.Routing.{RoutingState, add_edge_unique, remove_edge, joined}
use fogros2_sgc.Routing.Edges.{
  degree-remove, joined-add, other, degree, DistinctEdges, add-DistinctEdges, degree-add-le,
  retain-DistinctEdges, degree-retain-le,
}
use fogros2_sgc.Routing.Tree.{move_children, graft}
use fogros2_sgc.Routing.Tree.Valid.{add_edge-registries, SameRegistries, IsValid}
use fogros2_sgc.Base.Int.{ℤ}
use fogros2_sgc.Text.Sets.{insert}

remove-DistinctEdges :
    (st : RoutingState) (p c : Text)
    → DistinctEdges st.edges
    → DistinctEdges (remove_edge st p c).edges
unfolding remove_edge
remove-DistinctEdges st p c d = retain-DistinctEdges (other p c) st.edges d

degree-remove-le :
    (st : RoutingState) (p c x : Text) → degree (remove_edge st p c).edges x ≤ degree st.edges x
unfolding remove_edge
degree-remove-le st p c x = degree-retain-le (other p c) st.edges x

-- Moving one child from `n` to `q`.
abbrev move_child : RoutingState → Text → Text → Text → RoutingState
move_child st n q c = add_edge_unique (remove_edge st n c) q c

degree-move_child-le :
    (st : RoutingState) (n q c x : Text)
    → degree (move_child st n q c).edges x ≤ degree st.edges x + (if q == x then 1 else 0)
degree-move_child-le st n q c x =
    omega (arith, degree-add-le (remove_edge st n c) q c x, degree-remove-le st n c x)

move_children-DistinctEdges :
    (st : RoutingState) (n q : Text) (ts : ℤ) (cs : List Text)
    → DistinctEdges st.edges
    → DistinctEdges (move_children st n q ts cs).edges
unfolding move_children
move_children-DistinctEdges st n q ts [] d = d
move_children-DistinctEdges st n q ts (c ∷ cs) d =
    let t = move_child st n q c in
    move_children-DistinctEdges (record t { attach_ms = insert c ts t.attach_ms }) n q ts cs
      (add-DistinctEdges (remove_edge st n c) q c (remove-DistinctEdges st n c d))

degree-move_children-le :
    (st : RoutingState) (n q : Text) (ts : ℤ) (cs : List Text) (x : Text)
    → degree (move_children st n q ts cs).edges x
      ≤ degree st.edges x + (if q == x then length cs else 0)
unfolding move_children
degree-move_children-le st n q ts [] x = ground arith
degree-move_children-le st n q ts (c ∷ cs) x =
    let t = move_child st n q c in
    ground (
      arith,
      degree-move_child-le st n q c x,
      degree-move_children-le (record t { attach_ms = insert c ts t.attach_ms }) n q ts cs x,
    )

-- At least one child leaves `n`.
degree-move_children-lt :
    (st : RoutingState) (n q : Text) (ts : ℤ) (c : Text) (cs : List Text)
    → (q == n) ≡ false
    → joined st.edges n c ≡ true
    → degree (move_children st n q ts (c ∷ cs)).edges n < degree st.edges n
unfolding move_children
degree-move_children-lt st n q ts c cs ne j =
    let t = move_child st n q c in
    ground (
      arith,
      degree-remove st n c j,
      degree-add-le (remove_edge st n c) q c n,
      degree-move_children-le (record t { attach_ms = insert c ts t.attach_ms }) n q ts cs n,
    )

move_children-registries :
    (st : RoutingState) (n q : Text) (ts : ℤ) (cs : List Text)
    → SameRegistries st (move_children st n q ts cs)
unfolding move_children remove_edge
move_children-registries st n q ts [] = (refl, refl)
move_children-registries st n q ts (c ∷ cs) =
    let t = move_child st n q c in
    ground (
      arith,
      add_edge-registries (remove_edge st n c) q c,
      move_children-registries (record t { attach_ms = insert c ts t.attach_ms }) n q ts cs,
    )

module _ (f : ℕ) (st : RoutingState) (n q subscriber : Text) (ts : ℤ) (c : Text)
    (cs : List Text) where
  abbrev grafted : RoutingState
  grafted = graft st n q subscriber ts (c ∷ cs)

  abbrev extended : RoutingState
  extended = add_edge_unique (add_edge_unique st n q) q subscriber

  graft-degree-le :
      (x : Text)
      → (q == n) ≡ false
      → joined st.edges n c ≡ true
      → degree st.edges q ≡ 0
      → length (c ∷ cs) < f
      → degree st.edges x ≤ f
      → degree grafted.edges x ≤ f
  unfolding graft
  graft-degree-le x ne j fresh few old = ground (
    arith,
    degree-add-le st n q x,
    degree-add-le (add_edge_unique st n q) q subscriber x,
    degree-move_children-le extended n q ts (c ∷ cs) x,
    still,
    eq_iff n x,
    eq_iff q x,
  )
    where
      still : degree (move_children extended n q ts (c ∷ cs)).edges n < degree extended.edges n
      still = degree-move_children-lt extended n q ts c cs ne (
          ground
            (arith, joined-add st n q n c, joined-add (add_edge_unique st n q) q subscriber n c))

  -- A graft keeps a state valid if the new proxy is not `n` and has no children, the first moved node
  -- is a child of `n`, and fewer nodes than the fanout are moved, at least one.
  pub graft-IsValid :
      IsValid f st
      → (q == n) ≡ false
      → joined st.edges n c ≡ true
      → degree st.edges q ≡ 0
      → length (c ∷ cs) < f
      → IsValid f grafted
  unfolding graft
  graft-IsValid h ne j fresh few = record {
    publishers_distinct = rw regs.0 h.publishers_distinct;
    proxies_distinct = rw regs.1 h.proxies_distinct;
    edges_distinct = move_children-DistinctEdges extended n q ts (c ∷ cs) (
        add-DistinctEdges (add_edge_unique st n q) q subscriber
          (add-DistinctEdges st n q h.edges_distinct));
    fanout_kept = λ x. graft-degree-le x ne j fresh few (h.fanout_kept x);
  }
    where
      regs : SameRegistries st (move_children extended n q ts (c ∷ cs))
      regs = ground (
        arith,
        add_edge-registries st n q,
        add_edge-registries (add_edge_unique st n q) q subscriber,
        move_children-registries extended n q ts (c ∷ cs),
      )
