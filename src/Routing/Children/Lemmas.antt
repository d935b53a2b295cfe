-- ===== src/Routing/Children/Lemmas.antt =====
-- What the maps of children hold: at each node the node's children in the edge list.
use fogros2_sgc.Base.{
  ◌≡◌, refl, ◌∙◌, ap, List, [], ◌∷◌, ◌++◌, if◌then◌else◌, true, false, arith, length,
  length-sort_by,
}
use mathlib.Core.List.{append-nil, append_assoc}
use fogros2_sgc.Text.{Text, ◌==◌, eq_iff, eq_refl, le_text}
use fogros2_sgc.Text.Sets.{
  contains, lookup, sort, dedup, lookup-insert, contains-append, dedup-Distinct, Distinct-sort_by,
  contains-sort_by, contains-dedup,
}
use fogros2_sgc.Routing.{Edge, joined}
use fogros2_sgc.Routing.Edges.{
  children_of, degree, DistinctEdges, children_of-Distinct, contains-children_of,
}
use fogros2_sgc.Routing.Children.{
  ChildMap, children_at, push_child, collect, tidy, build_children_map, collect_unseen,
  build_children_map_insertion_order,
}

children_at-push :
    (m : ChildMap) (p c n : Text)
    → children_at (push_child m p c) n
      ≡ (if p == n then children_at m n ++ c ∷ [] else children_at m n)
unfolding children_at push_child
children_at-push m p c n =
    ground (arith, lookup-insert p n (children_at m p ++ c ∷ []) m, eq_iff p n)

children_at-collect :
    (m : ChildMap) (es : List Edge) (n : Text)
    → children_at (collect m es) n ≡ children_at m n ++ children_of es n
unfolding collect children_of
children_at-collect m [] n = rw append-nil
children_at-collect m (e ∷ es) n = ground (
  arith,
  children_at-collect (push_child m e.parent e.child) es n,
  children_at-push m e.parent e.child n,
  append_assoc (children_at m n) (e.child ∷ []) (children_of es n),
)

children_at-tidy :
    (m : ChildMap) (n : Text) → children_at (tidy m) n ≡ dedup (sort (children_at m n))
unfolding children_at tidy lookup
children_at-tidy [] n = unfold sort dedup in refl
children_at-tidy ((k, ch) ∷ m) n = ground (arith, children_at-tidy m n)

pub children_at-build :
    (es : List Edge) (n : Text)
    → children_at (build_children_map es) n ≡ dedup (sort (children_of es n))
unfolding build_children_map
children_at-build es n =
    children_at-tidy (collect [] es) n ∙ ap (λ ch. dedup (sort ch)) (children_at-collect [] es n)

-- Over distinct edges the map counts the children.
pub length-children_at :
    (es : List Edge) (n : Text)
    → DistinctEdges es
    → length (children_at (build_children_map es) n) ≡ degree es n
unfolding sort
length-children_at es n d =
    rw
      (
        children_at-build es n,
        dedup-Distinct (sort (children_of es n))
            (Distinct-sort_by le_text (children_of es n) (children_of-Distinct es n d)),
      )
      (length-sort_by le_text (children_of es n))

pub contains-children_at :
    (es : List Edge) (p c : Text)
    → contains (children_at (build_children_map es) p) c ≡ joined es p c
unfolding sort
contains-children_at es p c =
    rw
      (
        children_at-build es p,
        contains-dedup (sort (children_of es p)) c,
        contains-sort_by le_text (children_of es p) c,
      )
      (contains-children_of es p c)

joined-head : (e : Edge) (es : List Edge) → joined (e ∷ es) e.parent e.child ≡ true
unfolding joined
joined-head e es = ground (arith, eq_refl e.parent, eq_refl e.child)

-- No edge of the list is in the map yet.
abbrev Unseen : ChildMap → List Edge → Type 0
Unseen m es = (p c : Text) → joined es p c ≡ true → contains (children_at m p) c ≡ false

Unseen-push :
    (m : ChildMap) (e : Edge) (es : List Edge)
    → DistinctEdges (e ∷ es)
    → Unseen m (e ∷ es)
    → Unseen (push_child m e.parent e.child) es
unfolding joined contains
Unseen-push m e es d u p c h = ground (
  arith,
  u p c,
  children_at-push m e.parent e.child p,
  contains-append (children_at m p) (e.child ∷ []) c,
  eq_iff e.parent p,
  eq_iff e.child c,
)

children_at-collect_unseen :
    (seen out : ChildMap) (es : List Edge) (n : Text)
    → DistinctEdges es
    → Unseen seen es
    → children_at (collect_unseen seen out es) n ≡ children_at out n ++ children_of es n
unfolding collect_unseen children_of
children_at-collect_unseen seen out [] n d u = rw append-nil
children_at-collect_unseen seen out (e ∷ es) n d u =
    let new = u e.parent e.child (joined-head e es) in
    ground (
      arith,
      new,
      children_at-collect_unseen (push_child seen e.parent e.child)
          (push_child out e.parent e.child) es n d.1 (Unseen-push seen e es d u),
      children_at-push out e.parent e.child n,
      append_assoc (children_at out n) (e.child ∷ []) (children_of es n),
    )

-- Over distinct edges the second map keeps the children in the order of insertion.
pub children_at-build_insertion_order :
    (es : List Edge) (n : Text)
    → DistinctEdges es
    → children_at (build_children_map_insertion_order es) n ≡ children_of es n
unfolding build_children_map_insertion_order children_at contains
children_at-build_insertion_order es n d = children_at-collect_unseen [] [] es n d (λ p c h. refl)
