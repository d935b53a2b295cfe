-- ===== src/Tests/Tree.antt =====
-- The operations on names and on the tree at small inputs.
use fogros2_sgc.Base.{ℕ, ◌≤◌, ◌≡◌, refl, ◌↔◌, true, some, [], ◌∷◌, map, arith}
use fogros2_sgc.Text.{Text, ◌==◌, codes}
use fogros2_sgc.Routing.{joined, Edge, is_intermediate, RoutingState}
use fogros2_sgc.Name.{
  Connection, GdpName, IsBytes, connection_from_str, invalid_digit, parse_name, show_connection,
  show_name,
}
use fogros2_sgc.Routing.Edges.{degree, children_of}
use fogros2_sgc.Routing.Fanout.{fanout, fanout_bounds}
use fogros2_sgc.Name.RoundTrip.{connection_from_str-show}
use fogros2_sgc.Routing.Tree.{graft, detach, all_proxies, to_move}
use fogros2_sgc.Routing.Bfs.Walk.{Walk}
use fogros2_sgc.Routing.Tree.Valid.{IsValid}
use fogros2_sgc.Routing.Tree.Valid.Graft.{graft-IsValid}
use fogros2_sgc.Routing.Tree.Valid.Overfull.{graft_overfull}
use fogros2_sgc.Text.Sets.{contains, Distinct}
use fogros2_sgc.Base.Int.{ℤ}
use fogros2_sgc.Routing.Children.{build_children_map}
use fogros2_sgc.Routing.Tree.Detach.{joined-detach}
use fogros2_sgc.Routing.Bfs.Depths.{bfs_depth_shortest}
use fogros2_sgc.Routing.Bfs.Shortest.{WalkOf, Listed, Sorted}
use fogros2_sgc.Routing.Bfs.{bfs_intermediates_with_depth}
use Prim.Native.String.{String}
use fogros2_sgc.Base.Result.{err, ok}

abbrev name : ℕ → GdpName
name n = record { byte0 = 0xab; byte1 = 0; byte2 = 255; byte3 = n }

name-IsBytes : IsBytes (name 7)
name-IsBytes = omega arith

peer-IsBytes : IsBytes (name 8)
peer-IsBytes = omega arith

name_text : show_name (name 7) ≡ codes "ab00ff07"
unfolding show_name
name_text = refl

parse_name_signs :
    (parse_name (codes "+1-2") ≡ err invalid_digit)
    × (parse_name (codes "+1") ≡ ok (record { byte0 = 1; byte1 = 0; byte2 = 0; byte3 = 0 }))
unfolding parse_name
parse_name_signs = (refl, refl)

abbrev link : Connection
link = record { publisher = name 7; subscriber = name 8 }

connection_from_str-show_example : connection_from_str (show_connection link) ≡ ok link
connection_from_str-show_example = connection_from_str-show link name-IsBytes peer-IsBytes

abbrev edge : String → String → Edge
edge p c = record { parent = codes p; child = codes c }

-- A root with the listeners a and b, and the unused proxy q.
abbrev full : RoutingState
full = record {
  publishers = codes "root" ∷ [];
  proxies = codes "q" ∷ [];
  edges = edge "root" "b" ∷ edge "root" "a" ∷ [];
  attach_ms = [];
}

full_degrees : (n : Text) → degree full.edges n ≤ 2
unfolding children_of
full_degrees n = ground arith

full-IsValid : IsValid 2 full
unfolding contains joined ◌==◌
full-IsValid = record {
  publishers_distinct = (refl, tt);
  proxies_distinct = (refl, tt);
  edges_distinct = (refl, (refl, tt));
  fanout_kept = full_degrees;
}

-- The graft moves the child with the smaller name, as both were attached at the same time.
full_moved : to_move 2 full (codes "b" ∷ codes "a" ∷ []) ≡ codes "a" ∷ []
unfolding to_move ◌==◌ contains
full_moved = refl

graft-IsValid_example :
    IsValid 2 (graft full (codes "root") (codes "q") (codes "c") (ℤ.pos 9) (codes "a" ∷ []))
unfolding joined children_of ◌==◌
graft-IsValid_example =
    graft-IsValid 2 full (codes "root") (codes "q") (codes "c") (ℤ.pos 9) (codes "a") []
      full-IsValid refl refl refl (omega arith)

graft_overfull_example :
    degree
      (graft full
        (codes "root")
        (codes "q")
        (codes "c")
        (ℤ.pos 9)
        (to_move 1 full (codes "b" ∷ codes "a" ∷ []))).edges
      (codes "q")
    ≡ 2
unfolding all_proxies contains children_of ◌==◌
graft_overfull_example =
    graft_overfull full (codes "root") (codes "q") (codes "c") (ℤ.pos 9)
      (codes "b" ∷ codes "a" ∷ []) refl refl refl refl

bfs_depth_shortest_example :
    let L = bfs_intermediates_with_depth full (codes "root") (build_children_map full.edges) in
    Distinct (map (λ (n : Text × ℕ). n.0) L)
    × Sorted L
    × ((v : Text) (d : ℕ)
        → Listed v d L ↔ (
            WalkOf (is_intermediate full) full.edges (codes "root") d v
            × ((k : ℕ) → WalkOf (is_intermediate full) full.edges (codes "root") k v → d ≤ k)))
bfs_depth_shortest_example = bfs_depth_shortest full (codes "root")

joined-detach_example :
    (joined (detach full (codes "a")).edges (codes "root") (codes "b") ≡ true) ↔ (
      (joined full.edges (codes "root") (codes "b") ≡ true)
      × ¬ Walk (λ v. true) full.edges (codes "a") (codes "root")
      × ¬ Walk (λ v. true) full.edges (codes "a") (codes "b"))
joined-detach_example = joined-detach full (codes "a") (codes "root") (codes "b")

detached : (detach full (codes "a")).edges ≡ edge "root" "b" ∷ []
unfolding detach ◌==◌
detached = refl

fanout_bounds_example : (1 ≤ fanout (some (codes "4096"))) × (fanout (some (codes "4096")) ≤ 1024)
fanout_bounds_example = fanout_bounds (some (codes "4096"))

fanout_values : (fanout (some (codes "4096")) ≡ 3) × (fanout (some (codes "+8")) ≡ 8)
unfolding fanout
fanout_values = (refl, refl)
