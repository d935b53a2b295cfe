-- ===== src/Routing/Update/Subscribe/Rounds.antt =====
-- `subscribe` as a whole keeps what the clients of the server rely on.
use fogros2_sgc.Base.{
  ℕ, zero, suc, ◌+◌, ◌≤◌, ◌≡◌, refl, subst, inl, inr, Bool, true, false, List, map, arith,
  Option-cases, List-cases,
}
use fogros2_sgc.Text.{Text}
use fogros2_sgc.Redis.{hsetnx, connect, now_ms, Env}
use fogros2_sgc.Routing.Update.Subscribe.Parts.{Flow-cases, Leaves}
use fogros2_sgc.Routing.Tree.Valid.{IsValid}
use fogros2_sgc.Routing.Update.Subscribe.{
  subscribe, join_tree, mark_attempt, subscribe_rounds, Flow, attach_pass, stamp_attachments,
  subscribe_round, two_passes,
}
use fogros2_sgc.Routing.Bfs.{bfs_intermediates_with_depth, with_depth}
use fogros2_sgc.Routing.Update.Subscribe.Attach.{Result1, attach_pass-Leaves}
use fogros2_sgc.Name.{show_name, GdpName}
use fogros2_sgc.Routing.Bfs.Walk.{seen-Distinct, seen-eq-out}
use fogros2_sgc.Text.Sets.{Distinct}
use fogros2_sgc.Routing.Update.Keeps.{
  IsValid-lists, read_value-IsValid, read_value-holds, GoodValue, IsFaithful,
}
use fogros2_sgc.Redis.Rely.{connect-holds, now_ms-holds, Rely}
use fogros2_sgc.Routing.Update.Subscribe.Graft.{graft_pass-Leaves}
use fogros2_sgc.Routing.{has_parent, RoutingState}
use fogros2_sgc.Routing.Update.{cas_backoff, max_retries, parse_state, read_value, Codec}
use fogros2_sgc.Routing.Children.{build_children_map}
use fogros2_sgc.Routing.Fanout.{fanout}
use fogros2_sgc.Routing.Tree.{deeper, candidates}
use fogros2_sgc.Base.Result.{Result-cases}
use fogros2_sgc.Base.Int.{ℤ}
use fogros2_sgc.Text.SortedNames.{Distinct-map-sort_by}

module _ (env : Env) (codec : Codec RoutingState) (faithful : IsFaithful codec) (topic : GdpName)
    (rely : Rely env (GoodValue env codec faithful (fanout env.fanout_factor) topic))
    (url topic_name : Text) (two : 2 ≤ fanout env.fanout_factor) where
  open rely use {holds}

  abbrev f : ℕ
  f = fanout env.fanout_factor

  -- The nodes of the breadth-first order, each once.
  nodes-Distinct :
      (st : RoutingState) (root : Text)
      → Distinct
          (map (λ n. n.0) (bfs_intermediates_with_depth st root (build_children_map st.edges)))
  unfolding bfs_intermediates_with_depth
  nodes-Distinct st root =
      subst Distinct (seen-eq-out (with_depth st) named st.edges (root, 0))
        (seen-Distinct (with_depth st) named st.edges (root, 0))
    where
      named : (n : Text × ℕ) (c : Text) → (with_depth st).name ((with_depth st).next n c) ≡ c
      named n c = refl

  two_passes-holds :
      (subscriber old : Text) (attempt : ℕ) (root : Text) (st : RoutingState) (w : env.World)
      → IsValid f st
      → holds w
      → holds (two_passes env codec url topic topic_name subscriber old attempt root st w).1
  unfolding two_passes
  two_passes-holds subscriber old attempt root st w v h = elim (Flow-cases pass1.0) [
    | inl (r, e) ↦ rw (e, two_passes) kept.0
    | inr (st1, e) ↦
        let after = kept.1 st1 e in
        rw (e, two_passes)
          (graft_pass-Leaves env codec faithful topic rely url topic_name subscriber old attempt
            st.edges v.edges_distinct two (candidates nodes) st1 pass1.1
            (unfold candidates in Distinct-map-sort_by (λ n. n.0) deeper nodes distinct)
            (λ n c k j. after.1 n c j) after.0 kept.0).0
  ]
    where
      nodes : List (Text × ℕ)
      nodes = bfs_intermediates_with_depth st root (build_children_map st.edges)

      distinct : Distinct (map (λ n. n.0) nodes)
      distinct = nodes-Distinct st root

      pass1 : Flow × env.World
      pass1 =
          attach_pass env codec url topic topic_name subscriber old attempt
            (build_children_map st.edges) (map (λ n. n.0) nodes) st w

      kept : Leaves env codec faithful f topic rely url topic_name (Result1 f st.edges) pass1
      kept =
          attach_pass-Leaves env codec faithful topic rely url topic_name subscriber old attempt
            st.edges v.edges_distinct (map (λ n. n.0) nodes) st w distinct (λ n k. omega arith)
            (v, λ p c j. j) h

  stamp-holds :
      (subscriber : Text) (st : RoutingState) (w : env.World)
      → holds w
      → holds (stamp_attachments env codec url topic topic_name subscriber st w).1
  unfolding stamp_attachments
  stamp-holds subscriber st w h =
      let first = now_ms-holds env (GoodValue env codec faithful f topic) rely w h in
      ground (
        arith,
        first,
        now_ms-holds env (GoodValue env codec faithful f topic) rely (now_ms env w).1 first,
      )

  stamp-lists :
      (subscriber : Text) (st : RoutingState) (w : env.World)
      → IsValid f st
      → IsValid f (stamp_attachments env codec url topic topic_name subscriber st w).0
  unfolding stamp_attachments
  stamp-lists subscriber st w v = IsValid-lists f st _ refl refl refl v

  attached_round :
      (subscriber old : Text) (attempt : ℕ) (root : Text) (st : RoutingState) (w : env.World)
      → IsValid f st
      → holds w
      → (b : Bool)
      → holds (join_tree env codec url topic topic_name subscriber old attempt root st b w).1
  unfolding join_tree
  attached_round subscriber old attempt root st w v h true = h
  attached_round subscriber old attempt root st w v h false =
      two_passes-holds subscriber old attempt root _ _ (stamp-lists subscriber st w v)
        (stamp-holds subscriber st w h)

  subscribe_round-holds :
      (subscriber : Text) (attempt : ℕ) (w : env.World)
      → holds w
      → holds (subscribe_round env codec url topic topic_name subscriber attempt w).1
  unfolding subscribe_round
  subscribe_round-holds subscriber attempt w h = elim (List-cases st.publishers) [
    | inl empty ↦ rw (empty, subscribe_round) loaded
    | inr (root, others, e) ↦
        rw (e, subscribe_round)
          (attached_round subscriber old.0 attempt root st old.1 valid loaded
            (has_parent st subscriber))
  ]
    where
      old : Text × env.World
      old = read_value env codec url topic w

      st : RoutingState
      st = parse_state codec old.0

      valid : IsValid f st
      valid = read_value-IsValid env codec faithful f topic rely url w h

      loaded : holds old.1
      loaded = read_value-holds env codec faithful f topic rely url w h

  mark_attempt-holds :
      (w : env.World) → holds w → holds (mark_attempt env codec url topic topic_name w)
  unfolding mark_attempt
  mark_attempt-holds w h = elim (Result-cases (connect env url w).0) [
    | inr (x, e) ↦ rw (e, mark_attempt) connected
    | inl (con, e) ↦
        rw (e, mark_attempt)
          (elim (Option-cases (env.clock (connect env url w).1).0) [
            | inl early ↦ rw early (rely.on_clock _ connected)
            | inr (ms, t) ↦
                rw t (rely.on_query ℤ con (hsetnx _ _ _) _ tt (rely.on_clock _ connected))
          ])
  ]
    where
      connected : holds (connect env url w).1
      connected = connect-holds env (GoodValue env codec faithful f topic) rely url w h

  subscribe_rounds-holds :
      (subscriber : GdpName) (rounds attempt : ℕ) (w : env.World)
      → holds w
      → holds (subscribe_rounds env codec url topic topic_name subscriber rounds attempt w).1
  unfolding subscribe_rounds
  subscribe_rounds-holds subscriber zero attempt w h = h
  subscribe_rounds-holds subscriber (suc rounds) attempt w h = elim (Flow-cases round.0) [
    | inl (r, e) ↦ rw (e, subscribe_rounds) after
    | inr (st, e) ↦
        rw (e, subscribe_rounds)
          (subscribe_rounds-holds subscriber rounds (attempt + 1) (cas_backoff env attempt round.1)
            (unfold cas_backoff in rely.on_sleep _ round.1 after))
  ]
    where
      round : Flow × env.World
      round = subscribe_round env codec url topic topic_name (show_name subscriber) attempt w

      after : holds round.1
      after = subscribe_round-holds (show_name subscriber) attempt w h

  -- With a fanout of two or more, a codec that reads back the states it writes, and on a server that
  -- keeps the values of the topic's key valid as long as this client writes valid ones, `subscribe`
  -- does so, whatever the other clients do between its commands and whichever way it ends.
  pub subscribe-holds :
      (subscriber : GdpName) (w : env.World)
      → holds w
      → holds (subscribe env codec url topic topic_name subscriber w).1
  unfolding subscribe
  subscribe-holds subscriber w h =
      subscribe_rounds-holds subscriber max_retries 0
        (mark_attempt env codec url topic topic_name w) (mark_attempt-holds w h)
