-- ===== src/Routing/Update/Subscribe/Graft.antt =====
-- Pass 2 of `subscribe` keeps the invariant for a fanout of two or more.
use fogros2_sgc.Base.{
  ℕ, ◌≤◌, ◌<◌, ◌≡◌, subst, inl, inr, Bool, true, false, not, ◌&&◌, Option, some, List, [], ◌∷◌, map,
  arith, Bool-cases, Option-cases, length,
}
use fogros2_sgc.Text.{Text, ◌==◌, eq_iff, eq_refl}
use fogros2_sgc.Redis.{now_ms, Env}
use fogros2_sgc.Routing.Update.{Codec}
use fogros2_sgc.Routing.{add_edge_unique, joined, remove_edge, Edge, RoutingState}
use fogros2_sgc.Routing.Update.Keeps.{GoodValue, IsFaithful}
use fogros2_sgc.Name.{GdpName}
use fogros2_sgc.Redis.Rely.{now_ms-holds, Rely}
use fogros2_sgc.Routing.Fanout.{fanout}
use fogros2_sgc.Routing.Edges.{
  contains-children_of, other, joined-add, joined-retain, DistinctEdges,
}
use fogros2_sgc.Routing.Tree.{all_proxies, to_move, used_nodes_set, graft, move_children}
use fogros2_sgc.Text.Sets.{Distinct, insert, contains}
use fogros2_sgc.Base.Int.{ℤ}
use fogros2_sgc.Routing.Tree.Valid.{IsValid}
use fogros2_sgc.Routing.Tree.Choice.{contains-to_move, length-to_move, unused-degree, unused-ne}
use fogros2_sgc.Routing.Tree.Valid.Graft.{graft-IsValid}
use fogros2_sgc.Routing.Children.{build_children_map_insertion_order, children_at}
use fogros2_sgc.Routing.Update.Subscribe.Parts.{
  Leaves, commit_or-Leaves, find_unused-fresh, find_unused-holds, is_skipped-holds,
}
use fogros2_sgc.Routing.Update.Subscribe.{graft_pass, is_skipped, pick_unused_proxy}
use fogros2_sgc.Routing.Children.Lemmas.{children_at-build_insertion_order}

module _ (env : Env) (codec : Codec RoutingState) (faithful : IsFaithful codec) (topic : GdpName)
    (rely : Rely env (GoodValue env codec faithful (fanout env.fanout_factor) topic))
    (url topic_name : Text) (subscriber old : Text) (attempt : ℕ) (es : List Edge)
    (distinct : DistinctEdges es) (two : 2 ≤ fanout env.fanout_factor) where
  open rely use {holds}

  abbrev f : ℕ
  f = fanout env.fanout_factor

  abbrev parents : List (Text × ℕ) → List Text
  parents = map (λ n. n.0)

  -- The first children of the nodes that are still to be tried are still there.
  abbrev Untouched : List (Text × ℕ) → RoutingState → Type 0
  Untouched ns st =
      (n c : Text)
      → contains (parents ns) n ≡ true
      → joined es n c ≡ true
      → joined st.edges n c ≡ true

  joined-remove_ne :
      (st : RoutingState) (n c p d : Text)
      → (n == p) ≡ false
      → joined st.edges p d ≡ true
      → joined (remove_edge st n c).edges p d ≡ true
  unfolding remove_edge
  joined-remove_ne st n c p d ne j =
      ground (arith, joined-retain (other n c) st.edges p d, eq_iff p n, eq_iff n p)

  joined-move_children :
      (st : RoutingState) (n q : Text) (ts : ℤ) (cs : List Text) (p d : Text)
      → (n == p) ≡ false
      → joined st.edges p d ≡ true
      → joined (move_children st n q ts cs).edges p d ≡ true
  unfolding move_children
  joined-move_children st n q ts [] p d ne j = j
  joined-move_children st n q ts (c ∷ cs) p d ne j =
      let t = add_edge_unique (remove_edge st n c) q c in
      joined-move_children (record t { attach_ms = insert c ts t.attach_ms }) n q ts cs p d ne
        (ground (arith, joined-add (remove_edge st n c) q c p d, joined-remove_ne st n c p d ne j))

  joined-graft :
      (st : RoutingState) (n q : Text) (ts : ℤ) (cs : List Text) (p d : Text)
      → (n == p) ≡ false
      → joined st.edges p d ≡ true
      → joined (graft st n q subscriber ts cs).edges p d ≡ true
  unfolding graft
  joined-graft st n q ts cs p d ne j =
      joined-move_children (add_edge_unique (add_edge_unique st n q) q subscriber) n q ts cs p d ne
        (ground
          (arith, joined-add st n q p d, joined-add (add_edge_unique st n q) q subscriber p d))

  Untouched-rest :
      (n : Text × ℕ) (ns : List (Text × ℕ)) (st : RoutingState)
      → Untouched (n ∷ ns) st
      → Untouched ns st
  unfolding contains
  Untouched-rest n ns st u m c k = u m c (ground arith)

  Untouched-graft :
      (n q : Text) (depth : ℕ) (ns : List (Text × ℕ)) (st : RoutingState) (ts : ℤ) (cs : List Text)
      → contains (parents ns) n ≡ false
      → Untouched ((n, depth) ∷ ns) st
      → Untouched ns (graft st n q subscriber ts cs)
  unfolding contains
  Untouched-graft n q depth ns st ts cs new u m c k j =
      joined-graft st n q ts cs m c (ground (arith, eq_iff n m)) (u m c (ground arith) j)

  -- One graft at a node whose first children are still there.
  graft-step :
      (st : RoutingState) (n q : Text) (ts : ℤ) (cs : List Text)
      → IsValid f st
      → ((c : Text) → joined es n c ≡ true → joined st.edges n c ≡ true)
      → contains (used_nodes_set st) q ≡ false
      → ((c : Text) → contains cs c ≡ true → joined es n c ≡ true)
      → 0 < length cs
      → length cs < f
      → IsValid f (graft st n q subscriber ts cs)
  unfolding contains
  graft-step st n q ts [] v old_children fresh chosen some_moved few = absurd (omega arith)
  graft-step st n q ts (c ∷ cs) v old_children fresh chosen some_moved few =
      let j = old_children c (chosen c (ground (arith, eq_refl c))) in
      graft-IsValid f st n q subscriber ts c cs v (unused-ne st q n c fresh j) j
        (unused-degree st q fresh) few

  pub graft_pass-Leaves :
      (ns : List (Text × ℕ)) (st : RoutingState) (w : env.World)
      → Distinct (parents ns)
      → Untouched ns st
      → IsValid f st
      → holds w
      → Leaves env codec faithful f topic rely url topic_name (IsValid f) (
          graft_pass env codec url topic topic_name subscriber old attempt
            (build_children_map_insertion_order es)
            ns
            st
            w)
  unfolding graft_pass
  graft_pass-Leaves [] st w d u v h = (h, λ t e. subst (IsValid f) (ground arith) v)
  graft_pass-Leaves ((n, depth) ∷ ns) st w d u v h = elim (Bool-cases go) [
    | inr stays ↦
        rw (stays, graft_pass)
          (graft_pass-Leaves ns st skip.1 d.1 (Untouched-rest (n, depth) ns st u) v skipped)
    | inl grows ↦
        rw (grows, graft_pass)
          (elim (Option-cases found.0) [
            | inl none_left ↦ rw (none_left, graft_pass) (found_holds, λ t e. absurd (cc))
            | inr (q, picked) ↦
                rw (picked, graft_pass)
                  (commit_or-Leaves env codec faithful f topic rely url topic_name (IsValid f) old
                    attempt (st' q) _ now.1 (valid grows q picked)
                    (now_ms-holds env (GoodValue env codec faithful f topic) rely found.1
                      found_holds)
                    (λ x hx.
                      graft_pass-Leaves ns (st' q) x d.1
                        (Untouched-graft n q depth ns st now.0 moved d.0 u) (valid grows q picked)
                        hx))
          ])
  ]
    where
      skip : Bool × env.World
      skip = is_skipped env codec url topic topic_name st n w

      skipped : holds skip.1
      skipped = is_skipped-holds env codec faithful f topic rely url topic_name st n w h

      ch : List Text
      ch = children_at (build_children_map_insertion_order es) n

      go : Bool
      go = not skip.0 && not (all_proxies st ch)

      found : Option Text × env.World
      found = pick_unused_proxy env codec url topic topic_name st skip.1

      found_holds : holds found.1
      found_holds =
          unfold pick_unused_proxy in
          find_unused-holds env codec faithful f topic rely url topic_name (used_nodes_set st)
            st.proxies skip.1 skipped

      now : ℤ × env.World
      now = now_ms env found.1

      moved : List Text
      moved = to_move f st ch

      st' : Text → RoutingState
      st' q = graft st n q subscriber now.0 moved

      chosen : (c : Text) → contains moved c ≡ true → joined es n c ≡ true
      chosen c k =
          rw (← contains-children_of es n c, ← children_at-build_insertion_order es n distinct)
            ((contains-to_move f st ch c k).0)

      valid : go ≡ true → (q : Text) → found.0 ≡ some q → IsValid f (st' q)
      valid grows q picked =
          let size = length-to_move f st ch two (ground arith) in
          graft-step st n q now.0 moved v
            (λ c j. u n c (unfold contains in ground (arith, eq_refl n)) j)
            (find_unused-fresh env codec faithful f topic rely url topic_name (used_nodes_set st)
              st.proxies skip.1 q picked).0
            chosen size.0 size.1
