-- ===== src/Routing/Update/Subscribe/Placed.antt =====
-- What the success of `subscribe` says: the subscriber has a parent.
use fogros2_sgc.Base.{
  ℕ, zero, suc, ◌+◌, ◌≡◌, ap, ◌∙◌, inl, inr, true, false, not, ◌&&◌, Option, some, List, [], ◌∷◌,
  map, arith, ltb, Bool-cases, Option-cases, List-cases, length,
}
use fogros2_sgc.Text.{Text, eq_refl}
use fogros2_sgc.Routing.Update.Subscribe.{
  no_publishers, subscribe, join_tree, mark_attempt, stamp_attachments, subscribe_round,
  subscribe_rounds, two_passes, Flow, attach_pass, graft_pass, commit_or, is_skipped,
  pick_unused_proxy,
}
use fogros2_sgc.Routing.{RoutingState, has_parent, has_parent_in, add_edge_unique}
use fogros2_sgc.Redis.{connect, get, exec_set, get_string, or_default, Env, atomic_update, now_ms}
use fogros2_sgc.Routing.Update.{
  cas_backoff, max_retries, Codec, parse_state, read_value, routing_key, to_json,
}
use fogros2_sgc.Routing.Edges.{joined-add}
use fogros2_sgc.Routing.Tree.{candidates, graft, all_proxies, to_move}
use fogros2_sgc.Base.Result.{ok, Result-cases}
use fogros2_sgc.Name.{show_name, GdpName}
use fogros2_sgc.Routing.Children.{
  build_children_map, build_children_map_insertion_order, ChildMap, children_at,
}
use fogros2_sgc.Routing.Fanout.{fanout}
use fogros2_sgc.Routing.Update.Subscribe.Parts.{Flow-cases}
use fogros2_sgc.Routing.Bfs.{bfs_intermediates_with_depth}
use fogros2_sgc.Text.Blank.{is_blank}
use fogros2_sgc.Routing.Update.Subscribe.Child.{graft-child, joined-has_parent_in}
use fogros2_sgc.Routing.Update.After.{atomic_update-after}

-- A fact about the world that comes true when the server replies to a read of the topic's key with a
-- value in which the node has a parent, or executes the write of a state in which it has one.
pub record Placing (env : Env) (codec : Codec RoutingState) (topic : GdpName) (node : Text)
    : Type 1 where
  pub holds : env.World → Type 0
  pub on_get :
      (con : env.Conn) (v : Option Text) (w : env.World)
      → (env.query (Option Text) con (get (routing_key topic)) w).0 ≡ ok v
      → has_parent (parse_state codec (or_default v)) node ≡ true
      → holds (env.query (Option Text) con (get (routing_key topic)) w).1
  pub on_exec :
      (con : env.Conn) (st : RoutingState) (reply : List Text) (w : env.World)
      → (env.query (Option (List Text)) con (exec_set (routing_key topic) (to_json codec st)) w).0
        ≡ ok (some reply)
      → has_parent_in st.edges node ≡ true
      → holds
          (env.query (Option (List Text)) con (exec_set (routing_key topic) (to_json codec st)) w).1

module _ (env : Env) (codec : Codec RoutingState) (url : Text) (topic : GdpName)
    (topic_name : Text) where
  module _ (node : Text) (placing : Placing env codec topic node) where
    open placing use {holds, on_get, on_exec}

    -- If it has returned with success, then it has come true.
    abbrev Placed : Flow × env.World → Type 0
    Placed r = r.0 ≡ Flow.returned (ok tt) → holds r.1

    commit_or-Placed :
        (old : Text) (attempt : ℕ) (st : RoutingState) (again : env.World → Flow × env.World)
        (w : env.World)
        → has_parent_in st.edges node ≡ true
        → ((v : env.World) → Placed (again v))
        → Placed (commit_or env codec url topic topic_name old attempt st again w)
    unfolding commit_or
    commit_or-Placed old attempt st again w placed k h =
        elim (Result-cases
          (atomic_update env url (routing_key topic) (to_json codec st) old 1 w).0) [
            | inl (true, e) ↦ rw e (
                atomic_update-after env url (routing_key topic) (to_json codec st) old holds
                  (λ con reply v x. on_exec con st reply v x placed) w e)
            | inl (false, e) ↦ rw e (k _ (rw (e, commit_or) at h))
            | inr (x, e) ↦ absurd (cc (rw (e, commit_or) at h))
          ]

    attach_pass-Placed :
        (old : Text) (attempt : ℕ) (children : ChildMap) (ns : List Text) (st : RoutingState)
        (w : env.World)
        → Placed (attach_pass env codec url topic topic_name node old attempt children ns st w)
    unfolding attach_pass
    attach_pass-Placed old attempt children [] st w h = absurd (cc)
    attach_pass-Placed old attempt children (n ∷ ns) st w h =
        let skip = is_skipped env codec url topic topic_name st n w in
        elim (Bool-cases
          (not skip.0 && ltb (length (children_at children n)) (fanout env.fanout_factor))) [
            | inr full ↦
                rw (full, attach_pass)
                  (attach_pass-Placed old attempt children ns st skip.1
                    (rw (full, attach_pass) at h))
            | inl room ↦
                let st' = add_edge_unique st n node in
                rw (room, attach_pass)
                  (commit_or-Placed old attempt st'
                    (attach_pass env codec url topic topic_name node old attempt children ns st')
                    skip.1
                    (joined-has_parent_in st'.edges n node
                      (ground (arith, joined-add st n node n node, eq_refl n, eq_refl node)))
                    (λ v. attach_pass-Placed old attempt children ns st' v)
                    (rw (room, attach_pass) at h))
          ]

    graft_pass-Placed :
        (old : Text) (attempt : ℕ) (children : ChildMap) (ns : List (Text × ℕ)) (st : RoutingState)
        (w : env.World)
        → Placed (graft_pass env codec url topic topic_name node old attempt children ns st w)
    unfolding graft_pass
    graft_pass-Placed old attempt children [] st w h = absurd (cc)
    graft_pass-Placed old attempt children ((n, depth) ∷ ns) st w h =
        let skip = is_skipped env codec url topic topic_name st n w in
        let ch = children_at children n in
        let found = pick_unused_proxy env codec url topic topic_name st skip.1 in
        elim (Bool-cases (not skip.0 && not (all_proxies st ch))) [
          | inr stays ↦
              rw (stays, graft_pass)
                (graft_pass-Placed old attempt children ns st skip.1 (rw (stays, graft_pass) at h))
          | inl grows ↦
              let h1 = rw (grows, graft_pass) at h in
              rw (grows, graft_pass)
                (elim (Option-cases found.0) [
                  | inl none_left ↦ absurd (cc (rw (none_left, graft_pass) at h1))
                  | inr (q, picked) ↦
                      let now = now_ms env found.1 in
                      let st' =
                        graft st n q node now.0 (to_move (fanout env.fanout_factor) st ch) in
                      rw (picked, graft_pass)
                        (commit_or-Placed old attempt st'
                          (graft_pass env codec url topic topic_name node old attempt children ns
                            st')
                          now.1
                          (graft-child st n q node now.0 (to_move (fanout env.fanout_factor) st ch))
                          (λ v. graft_pass-Placed old attempt children ns st' v)
                          (rw (picked, graft_pass) at h1))
                ])
        ]

    two_passes-Placed :
        (old : Text) (attempt : ℕ) (root : Text) (st : RoutingState) (w : env.World)
        → Placed (two_passes env codec url topic topic_name node old attempt root st w)
    unfolding two_passes
    two_passes-Placed old attempt root st w h =
        let nodes = bfs_intermediates_with_depth st root (build_children_map st.edges) in
        let pass1 =
          attach_pass env codec url topic topic_name node old attempt (build_children_map st.edges)
            (map (λ (n : Text × ℕ). n.0) nodes) st w in
        elim (Flow-cases pass1.0) [
          | inl (r, e) ↦
              rw (e, two_passes)
                (attach_pass-Placed old attempt (build_children_map st.edges)
                  (map (λ (n : Text × ℕ). n.0) nodes) st w (e ∙ (rw (e, two_passes) at h)))
          | inr (st1, e) ↦
              rw (e, two_passes)
                (graft_pass-Placed old attempt (build_children_map_insertion_order st.edges)
                  (candidates nodes) st1 pass1.1 (rw (e, two_passes) at h))
        ]

    join_tree-Placed :
        (old : Text) (attempt : ℕ) (root : Text) (st : RoutingState) (w : env.World)
        → Placed (join_tree env codec url topic topic_name node old attempt root st false w)
    unfolding join_tree
    join_tree-Placed old attempt root st w h =
        let stamped = stamp_attachments env codec url topic topic_name node st w in
        two_passes-Placed old attempt root stamped.0 stamped.1 h

    -- A failed read is an empty value, in which no node has a parent.
    read_value-Placed :
        (w : env.World)
        → has_parent (parse_state codec (read_value env codec url topic w).0) node ≡ true
        → holds (read_value env codec url topic w).1
    unfolding read_value get_string parse_state has_parent has_parent_in is_blank
    read_value-Placed w h = elim (Result-cases (connect env url w).0) [
      | inr (x, e) ↦ absurd (cc (rw e at h))
      | inl (con, e) ↦
          let w1 = (connect env url w).1 in
          let h1 = rw e at h in
          elim (Result-cases (env.query (Option Text) con (get (routing_key topic)) w1).0) [
            | inr (x, f) ↦ absurd (cc (rw f at h1))
            | inl (v, f) ↦ rw e (on_get con v w1 f (rw f at h1))
          ]
    ]

    subscribe_round-Placed :
        (attempt : ℕ) (w : env.World)
        → Placed (subscribe_round env codec url topic topic_name node attempt w)
    unfolding subscribe_round no_publishers join_tree
    subscribe_round-Placed attempt w h =
        let old = read_value env codec url topic w in
        let st = parse_state codec old.0 in
        elim (List-cases st.publishers) [
          | inl empty ↦ absurd (cc (rw (empty, subscribe_round) at h))
          | inr (root, others, e) ↦
              let h1 = rw (e, subscribe_round) at h in
              rw e (elim (Bool-cases (has_parent st node)) [
                | inl already ↦ rw already (read_value-Placed w already)
                | inr orphan ↦
                    rw orphan (join_tree-Placed old.0 attempt root st old.1 (rw orphan at h1))
              ])
        ]

  subscribe_rounds-Placed :
      (subscriber : GdpName) (placing : Placing env codec topic (show_name subscriber))
      (rounds attempt : ℕ) (w : env.World)
      → (subscribe_rounds env codec url topic topic_name subscriber rounds attempt w).0 ≡ ok tt
      → placing.holds
          (subscribe_rounds env codec url topic topic_name subscriber rounds attempt w).1
  unfolding subscribe_rounds
  subscribe_rounds-Placed subscriber placing zero attempt w h = absurd (cc)
  subscribe_rounds-Placed subscriber placing (suc rounds) attempt w h =
      let round = subscribe_round env codec url topic topic_name (show_name subscriber) attempt w in
      elim (Flow-cases round.0) [
        | inl (r, e) ↦ rw e (
            subscribe_round-Placed (show_name subscriber) placing attempt w
              (e ∙ ap Flow.returned (rw (e, subscribe_rounds) at h)))
        | inr (st, e) ↦ rw e (
            subscribe_rounds-Placed subscriber placing rounds (attempt + 1)
              (cas_backoff env attempt round.1) (rw (e, subscribe_rounds) at h))
      ]

  -- Take any fact about the world that comes true only where it has to: when the server replies to a read
  -- of the topic's key with a value in which the subscriber has a parent, and when it executes the write
  -- of a state in which it has one. If `subscribe` succeeds, from whatever world and with whatever other
  -- clients do meanwhile, the fact is true in the world in which it returns.
  pub subscribe-ok :
      (subscriber : GdpName) (placing : Placing env codec topic (show_name subscriber))
      (w : env.World)
      → (subscribe env codec url topic topic_name subscriber w).0 ≡ ok tt
      → placing.holds (subscribe env codec url topic topic_name subscriber w).1
  unfolding subscribe
  subscribe-ok subscriber placing w h =
      subscribe_rounds-Placed subscriber placing max_retries 0
        (mark_attempt env codec url topic topic_name w) h
