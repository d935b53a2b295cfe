-- ===== src/Routing/Children.antt =====
-- core/src/routing.rs, `build_children_map` and `build_children_map_insertion_order`.
pub mod Lemmas
use fogros2_sgc.Base.{ℕ, ◌≡◌, List, [], ◌∷◌, ◌++◌, Option, none, some, if◌then◌else◌, map, Bool}
use fogros2_sgc.Text.{Text, ◌==◌}
use fogros2_sgc.Text.Sets.{contains, lookup, insert, sort, dedup}
use fogros2_sgc.Routing.{Edge}

abbrev pub ChildMap : Type 0
ChildMap = List (Text × List Text)

-- `map.get(&n)`, with no entry read as no children.
unfoldable pub children_at : ChildMap → Text → List Text
unfolding lookup
children_at m n = elim (lookup n m) [ none ↦ [] | some ch ↦ ch ]

-- `out.entry(p).or_default().push(c)`
unfoldable pub push_child : ChildMap → Text → Text → ChildMap
unfolding children_at insert
push_child m p c = insert p (children_at m p ++ c ∷ []) m

unfoldable pub collect : ChildMap → List Edge → ChildMap
unfolding push_child
collect m [] = m
collect m (e ∷ es) = collect (push_child m e.parent e.child) es

-- The loop over `values_mut`.
unfoldable pub tidy : ChildMap → ChildMap
unfolding sort dedup
tidy [] = []
tidy ((n, ch) ∷ m) = (n, dedup (sort ch)) ∷ tidy m

unfoldable pub build_children_map : List Edge → ChildMap
unfolding collect tidy
build_children_map es = tidy (collect [] es)

-- `seen` and `out` of the loop that keeps the order of insertion.
unfoldable pub collect_unseen : ChildMap → ChildMap → List Edge → ChildMap
unfolding push_child contains
collect_unseen seen out [] = out
collect_unseen seen out (e ∷ es) =
    let old = contains (children_at seen e.parent) e.child in
    collect_unseen (if old then seen else push_child seen e.parent e.child)
      (if old then out else push_child out e.parent e.child) es

unfoldable pub build_children_map_insertion_order : List Edge → ChildMap
unfolding collect_unseen
build_children_map_insertion_order es = collect_unseen [] [] es
