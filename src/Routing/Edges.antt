-- ===== src/Routing/Edges.antt =====
-- The edge list of core/src/routing.rs seen as a graph: the children of a node, how many it has,
-- and what adding or removing an edge does to them.
use fogros2_sgc.Base.{
  length-append, ℕ, suc, ◌+◌, ◌≤◌, ◌≡◌, refl, Bool, true, false, not, ◌&&◌, ◌||◌, List, [], ◌∷◌,
  ◌++◌, arith, if◌then◌else◌, length, retain,
}
use fogros2_sgc.Text.{Text, ◌==◌, eq_iff}
use fogros2_sgc.Text.Sets.{contains, Distinct}
use fogros2_sgc.Routing.{Edge, RoutingState, joined, add_edge_unique, remove_edge, has_parent_in}

-- The children of a node, in the order of insertion.
unfoldable pub children_of : List Edge → Text → List Text
children_of [] n = []
children_of (e ∷ es) n =
    let rest = children_of es n in if e.parent == n then e.child ∷ rest else rest

abbrev pub degree : List Edge → Text → ℕ
degree es n = length (children_of es n)

-- No edge stands twice in the list.
abbrev pub DistinctEdges : List Edge → Type 0
DistinctEdges [] = Unit {0}
DistinctEdges (e ∷ es) = (joined es e.parent e.child ≡ false) × DistinctEdges es

pub contains-children_of :
    (es : List Edge) (p c : Text) → contains (children_of es p) c ≡ joined es p c
unfolding children_of contains joined
contains-children_of [] p c = refl
contains-children_of (e ∷ es) p c = ground (arith, contains-children_of es p c)

pub children_of-Distinct :
    (es : List Edge) (n : Text) → DistinctEdges es → Distinct (children_of es n)
unfolding children_of
children_of-Distinct [] n d = tt
children_of-Distinct (e ∷ es) n d =
    ground
      (arith, children_of-Distinct es n d.1, contains-children_of es n e.child, eq_iff e.parent n)

pub children_of-append :
    (es fs : List Edge) (n : Text) → children_of (es ++ fs) n ≡ children_of es n ++ children_of fs n
unfolding children_of
children_of-append [] fs n = refl
children_of-append (e ∷ es) fs n = ground (arith, children_of-append es fs n)

pub joined-append :
    (es fs : List Edge) (p c : Text) → joined (es ++ fs) p c ≡ (joined es p c || joined fs p c)
unfolding joined
joined-append [] fs p c = refl
joined-append (e ∷ es) fs p c = ground (arith, joined-append es fs p c)

has_parent_in-append :
    (es fs : List Edge) (n : Text)
    → has_parent_in (es ++ fs) n ≡ (has_parent_in es n || has_parent_in fs n)
unfolding has_parent_in
has_parent_in-append [] fs n = refl
has_parent_in-append (e ∷ es) fs n = ground (arith, has_parent_in-append es fs n)

DistinctEdges-concat :
    (es : List Edge) (e : Edge)
    → joined es e.parent e.child ≡ false
    → DistinctEdges es
    → DistinctEdges (es ++ e ∷ [])
unfolding joined
DistinctEdges-concat [] e h d = (refl, tt)
DistinctEdges-concat (x ∷ xs) e h d = (
  ground (
    arith,
    joined-append xs (e ∷ []) x.parent x.child,
    eq_iff x.parent e.parent,
    eq_iff e.parent x.parent,
    eq_iff x.child e.child,
    eq_iff e.child x.child,
  ),
  DistinctEdges-concat xs e (ground arith) d.1,
)

-- What an added edge changes.
pub add-DistinctEdges :
    (st : RoutingState) (p c : Text)
    → DistinctEdges st.edges
    → DistinctEdges (add_edge_unique st p c).edges
unfolding add_edge_unique
add-DistinctEdges st p c d =
    ground (arith, DistinctEdges-concat st.edges (record { parent = p; child = c }))

pub joined-add :
    (st : RoutingState) (p c q d : Text)
    → joined (add_edge_unique st p c).edges q d ≡ (joined st.edges q d || p == q && c == d)
unfolding add_edge_unique joined
joined-add st p c q d = ground (
  arith,
  joined-append st.edges (record { parent = p; child = c } ∷ []) q d,
  eq_iff p q,
  eq_iff c d,
)

pub degree-add-le :
    (st : RoutingState) (p c n : Text)
    → degree (add_edge_unique st p c).edges n ≤ degree st.edges n + (if p == n then 1 else 0)
unfolding add_edge_unique children_of
degree-add-le st p c n = ground (
  arith,
  children_of-append st.edges (record { parent = p; child = c } ∷ []) n,
  length-append (children_of st.edges n) (c ∷ []),
  length-append (children_of st.edges n) [],
)

pub has_parent-add :
    (st : RoutingState) (p c n : Text)
    → joined st.edges p c ≡ false
    → has_parent_in (add_edge_unique st p c).edges n ≡ (has_parent_in st.edges n || c == n)
unfolding add_edge_unique has_parent_in
has_parent-add st p c n h =
    ground (arith, has_parent_in-append st.edges (record { parent = p; child = c } ∷ []) n)

-- What keeping some of the edges changes.
module _ (keep : Edge → Bool) where
  pub joined-retain :
      (es : List Edge) (p c : Text)
      → joined (retain keep es) p c ≡ (keep (record { parent = p; child = c }) && joined es p c)
  unfolding retain joined
  joined-retain [] p c = ground arith
  joined-retain (e ∷ es) p c =
      ground (arith, joined-retain es p c, eq_iff e.parent p, eq_iff e.child c)

  pub retain-DistinctEdges : (es : List Edge) → DistinctEdges es → DistinctEdges (retain keep es)
  unfolding retain
  retain-DistinctEdges [] d = tt
  retain-DistinctEdges (e ∷ es) d =
      ground (arith, joined-retain es e.parent e.child, retain-DistinctEdges es)

  pub degree-retain-le : (es : List Edge) (n : Text) → degree (retain keep es) n ≤ degree es n
  unfolding retain children_of
  degree-retain-le [] n = omega arith
  degree-retain-le (e ∷ es) n = ground (arith, degree-retain-le es n)

-- The edges that removing one leaves.
abbrev pub other : Text → Text → Edge → Bool
other p c e = not (e.parent == p && e.child == c)

degree-retain-other :
    (es : List Edge) (p c : Text)
    → joined es p c ≡ true
    → suc (degree (retain (other p c) es) p) ≤ degree es p
unfolding retain children_of joined
degree-retain-other [] p c h = absurd (cc)
degree-retain-other (e ∷ es) p c h =
    ground (arith, degree-retain-other es p c, degree-retain-le (other p c) es p)

-- Removing an edge that is there takes a child away.
pub degree-remove :
    (st : RoutingState) (p c : Text)
    → joined st.edges p c ≡ true
    → suc (degree (remove_edge st p c).edges p) ≤ degree st.edges p
unfolding remove_edge
degree-remove st p c h = degree-retain-other st.edges p c h

-- The other nodes keep their children.
pub degree-retain-other_ne :
    (es : List Edge) (n c q : Text)
    → (n == q) ≡ false
    → degree (retain (other n c) es) q ≡ degree es q
unfolding retain children_of
degree-retain-other_ne [] n c q h = refl
degree-retain-other_ne (e ∷ es) n c q h =
    ground
      (arith, degree-retain-other_ne es n c q h, eq_iff e.parent n, eq_iff e.parent q, eq_iff n q)

-- A node without children is the parent of nothing.
pub degree-zero-joined : (es : List Edge) (p c : Text) → degree es p ≡ 0 → joined es p c ≡ false
unfolding children_of joined
degree-zero-joined [] p c h = refl
degree-zero-joined (e ∷ es) p c h = ground (arith, degree-zero-joined es p c)
