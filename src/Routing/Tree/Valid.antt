-- ===== src/Routing/Tree/Valid.antt =====
-- The invariant that the head of core/src/routing.rs names, and which changes of the state keep it.
pub mod Graft
pub mod Overfull
use fogros2_sgc.Base.{
  inr, inl, Bool-cases, ℕ, suc, ◌+◌, ◌≤◌, ◌<◌, ◌≡◌, refl, Bool, true, false, not, List, [], ◌∷◌,
  ◌++◌, arith, length,
}
use fogros2_sgc.Text.{eq_iff, Text, ◌==◌}
use fogros2_sgc.Text.Sets.{contains, Distinct, Distinct-concat}
use fogros2_sgc.Routing.{
  Edge, RoutingState, blank, has_publisher, has_proxy, add_publisher, add_proxy, add_edge_unique,
  joined, remove_edge,
}
use fogros2_sgc.Routing.Edges.{
  children_of, degree, DistinctEdges, add-DistinctEdges, degree-add-le, retain-DistinctEdges,
  degree-retain-le,
}
use fogros2_sgc.Routing.Tree.{outside, detach}
use fogros2_sgc.Routing.Bfs.{subtree_of}
use fogros2_sgc.Routing.Children.{build_children_map}

pub record IsValid (fanout : ℕ) (st : RoutingState) : Type 0 where
  pub publishers_distinct : Distinct st.publishers
  pub proxies_distinct : Distinct st.proxies
  pub edges_distinct : DistinctEdges st.edges
  pub fanout_kept : (n : Text) → degree st.edges n ≤ fanout

pub blank-IsValid : (f : ℕ) → IsValid f blank
unfolding children_of
blank-IsValid f = record {
  publishers_distinct = tt;
  proxies_distinct = tt;
  edges_distinct = tt;
  fanout_kept = λ n. omega arith;
}

-- Registering a publisher keeps the invariant and registers it: in order, at the end, and once.
pub add_publisher-IsValid :
    (f : ℕ) (st : RoutingState) (n : Text) → IsValid f st → IsValid f (add_publisher st n)
unfolding add_publisher
add_publisher-IsValid f st n h = elim (Bool-cases (contains st.publishers n)) [
  | inl old ↦ rw (old, add_publisher) h
  | inr new ↦
      rw (new, add_publisher)
        (record {
          publishers_distinct = Distinct-concat st.publishers n new h.publishers_distinct;
          proxies_distinct = h.proxies_distinct;
          edges_distinct = h.edges_distinct;
          fanout_kept = h.fanout_kept;
        })
]

pub add_proxy-IsValid :
    (f : ℕ) (st : RoutingState) (n : Text) → IsValid f st → IsValid f (add_proxy st n)
unfolding add_proxy
add_proxy-IsValid f st n h = elim (Bool-cases (contains st.proxies n)) [
  | inl old ↦ rw (old, add_proxy) h
  | inr new ↦
      rw (new, add_proxy)
        (record {
          publishers_distinct = h.publishers_distinct;
          proxies_distinct = Distinct-concat st.proxies n new h.proxies_distinct;
          edges_distinct = h.edges_distinct;
          fanout_kept = h.fanout_kept;
        })
]

pub detach-IsValid : (f : ℕ) (st : RoutingState) (n : Text) → IsValid f st → IsValid f (detach st n)
unfolding detach
detach-IsValid f st n h =
    let gone = subtree_of st.edges (build_children_map st.edges) n in
    record {
      publishers_distinct = h.publishers_distinct;
      proxies_distinct = h.proxies_distinct;
      edges_distinct = retain-DistinctEdges (outside gone) st.edges h.edges_distinct;
      fanout_kept = λ x. omega (arith, h.fanout_kept x, degree-retain-le (outside gone) st.edges x);
    }

abbrev pub SameRegistries : RoutingState → RoutingState → Type 0
SameRegistries st t = (t.publishers ≡ st.publishers) × (t.proxies ≡ st.proxies)

pub add_edge-registries :
    (st : RoutingState) (p c : Text) → SameRegistries st (add_edge_unique st p c)
unfolding add_edge_unique
add_edge-registries st p c = ground arith

-- Attaching a node under a parent with fewer children than the fanout keeps a state valid: no
-- publisher, proxy or edge twice, and no node with more children than the fanout.
pub attach-IsValid :
    (f : ℕ) (st : RoutingState) (p c : Text)
    → IsValid f st
    → degree st.edges p < f
    → IsValid f (add_edge_unique st p c)
attach-IsValid f st p c h room = record {
  publishers_distinct = rw ((add_edge-registries st p c).0) h.publishers_distinct;
  proxies_distinct = rw ((add_edge-registries st p c).1) h.proxies_distinct;
  edges_distinct = add-DistinctEdges st p c h.edges_distinct;
  fanout_kept = λ x. ground (arith, degree-add-le st p c x, h.fanout_kept x, eq_iff p x);
}
