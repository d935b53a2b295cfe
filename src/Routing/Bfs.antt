-- ===== src/Routing/Bfs.antt =====
-- The breadth-first loops of core/src/routing.rs (`bfs_intermediates`,
-- `bfs_intermediates_with_depth`, the subtree loop of `disconnect`) and of signaling/src/main.rs.
-- They differ in what stands in the queue and in which children they accept. `seen` keeps the order
-- in which the set was filled. The `while` loops run on fuel: one round more than there are edges
-- is enough (Bfs/Fuel).
pub mod Walk
pub mod Reached
pub mod Shortest
pub mod Depths
pub mod Levels
pub mod Fuel
use fogros2_sgc.Base.{
  ℕ, zero, suc, ◌+◌, Bool, true, ◌&&◌, not, List, [], ◌∷◌, ◌++◌, none, some, map, if◌then◌else◌,
  length,
}
use fogros2_sgc.Text.{Text}
use fogros2_sgc.Text.Sets.{contains, lookup}
use fogros2_sgc.Routing.{RoutingState, Edge, is_intermediate}
use fogros2_sgc.Routing.Children.{ChildMap}

pub record Search (A : Type 0) : Type 0 where
  pub seen : List Text
  pub queue : List A
  pub out : List A

-- What a queue entry names, the entry for a child, and the test on a child.
pub record Mode (A : Type 0) : Type 0 where
  pub name : A → Text
  pub next : A → Text → A
  pub accept : Text → Bool

module _ {A : Type 0} (mode : Mode A) where
  abbrev pub names : List A → List Text
  names = map mode.name

  -- The body of the inner loop, over the children of `n`.
  unfoldable pub enter : A → Search A → Text → Search A
  unfolding contains
  enter n s c =
      if mode.accept c && not (contains s.seen c)
      then record s { seen = s.seen ++ c ∷ []; queue = s.queue ++ mode.next n c ∷ [] }
      else s

  unfoldable pub enter_all : A → Search A → List Text → Search A
  unfolding enter
  enter_all n s [] = s
  enter_all n s (c ∷ cs) = enter_all n (enter n s c) cs

  module _ (children : ChildMap) where
    -- The body of the outer loop, with `n` off the queue.
    unfoldable pub expand : A → Search A → Search A
    unfolding enter_all lookup
    expand n s = elim (lookup (mode.name n) children) [ none ↦ s | some ch ↦ enter_all n s ch ]

    unfoldable pub search_loop : ℕ → Search A → Search A
    unfolding expand
    search_loop zero s = s
    search_loop (suc fuel) s = elim s.queue [
      | [] ↦ s
      | n ∷ rest ↦ search_loop fuel (expand n (record s { queue = rest; out = s.out ++ n ∷ [] }))
    ]

  abbrev pub start : A → Search A
  start root = record { seen = mode.name root ∷ []; queue = root ∷ []; out = [] }

abbrev pub enough : List Edge → ℕ
enough es = suc (length es)

abbrev pub plain : RoutingState → Mode Text
plain st = record { name = λ n. n; next = λ n c. c; accept = is_intermediate st }

abbrev pub with_depth : RoutingState → Mode (Text × ℕ)
with_depth st = record { name = λ n. n.0; next = λ n c. (c, n.1 + 1); accept = is_intermediate st }

abbrev pub whole_tree : Mode Text
whole_tree = record { name = λ n. n; next = λ n c. c; accept = λ c. true }

unfoldable pub bfs_intermediates : RoutingState → Text → ChildMap → List Text
unfolding search_loop is_intermediate
bfs_intermediates st root children =
    (search_loop (plain st) children (enough st.edges) (start (plain st) root)).out

unfoldable pub bfs_intermediates_with_depth : RoutingState → Text → ChildMap → List (Text × ℕ)
unfolding search_loop is_intermediate
bfs_intermediates_with_depth st root children =
    (search_loop (with_depth st) children (enough st.edges) (start (with_depth st) (root, 0))).out

-- The set `subtree` of `disconnect`.
unfoldable pub subtree_of : List Edge → ChildMap → Text → List Text
unfolding search_loop
subtree_of es children node =
    (search_loop whole_tree children (enough es) (start whole_tree node)).seen
