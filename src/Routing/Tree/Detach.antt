-- ===== src/Routing/Tree/Detach.antt =====
-- What `disconnect` leaves of the tree.
use fogros2_sgc.Base.{
  ◌≡◌, refl, ◌↔◌, inl, inr, true, false, not, ◌&&◌, List, arith, Bool-cases, retain,
}
use fogros2_sgc.Text.{Text}
use fogros2_sgc.Routing.{joined, RoutingState}
use fogros2_sgc.Routing.Bfs.Walk.{Walk}
use fogros2_sgc.Routing.Bfs.{subtree_of}
use fogros2_sgc.Routing.Children.{build_children_map}
use fogros2_sgc.Routing.Edges.{joined-retain}
use fogros2_sgc.Routing.Bfs.Reached.{subtree_of_iff}
use fogros2_sgc.Routing.Tree.{outside, detach}
use fogros2_sgc.Text.Sets.{contains}

-- An edge survives exactly if neither end is the disconnected node or below it.
pub joined-detach :
    (st : RoutingState) (node p c : Text)
    → (joined (detach st node).edges p c ≡ true) ↔ (
        (joined st.edges p c ≡ true)
        × ¬ Walk (λ v. true) st.edges node p
        × ¬ Walk (λ v. true) st.edges node c)
unfolding detach
joined-detach st node p c = (
  λ j. (
    ground (arith, kept),
    λ w. ground (arith, kept, below p w),
    λ w. ground (arith, kept, below c w),
  ),
  λ h. ground (arith, kept, h.0, apart p h.1, apart c h.2),
)
  where
    subtree : List Text
    subtree = subtree_of st.edges (build_children_map st.edges) node

    kept :
        joined (retain (outside subtree) st.edges) p c
        ≡ ((not (contains subtree p) && not (contains subtree c)) && joined st.edges p c)
    kept = joined-retain (outside subtree) st.edges p c

    below : (v : Text) → Walk (λ x. true) st.edges node v → contains subtree v ≡ true
    below v = (subtree_of_iff st.edges node v).1

    apart : (v : Text) → ¬ Walk (λ x. true) st.edges node v → contains subtree v ≡ false
    apart v far = elim (Bool-cases (contains subtree v)) [
      | inl inside ↦ absurd (far ((subtree_of_iff st.edges node v).0 inside))
      | inr e ↦ e
    ]

-- After a disconnect nothing leads to the node or from it, and the registries are as they were.
pub detach_isolates :
    (st : RoutingState) (node v : Text)
    → (joined (detach st node).edges node v ≡ false)
      × (joined (detach st node).edges v node ≡ false)
      × ((detach st node).publishers ≡ st.publishers)
      × ((detach st node).proxies ≡ st.proxies)
detach_isolates st node v = (
  elim (Bool-cases (joined (detach st node).edges node v)) [
    | inl j ↦ absurd (((joined-detach st node node v).0 j).1 Walk.here)
    | inr e ↦ e
  ],
  elim (Bool-cases (joined (detach st node).edges v node)) [
    | inl j ↦ absurd (((joined-detach st node v node).0 j).2 Walk.here)
    | inr e ↦ e
  ],
  unfold detach in refl,
  unfold detach in refl,
)
