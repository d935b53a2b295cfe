-- ===== src/Routing/Update/Subscribe.antt =====
-- core/src/routing.rs, `subscribe` and the helpers that ask whether proxies are alive. One round
-- reads the state, tries each node with room (pass 1), then each node to grow (pass 2); as in the
-- source, a lost compare-and-swap goes on to the next node with the state already changed.
pub mod Parts
pub mod Rounds
pub mod Attach
pub mod Graft
pub mod Child
pub mod Placed
use fogros2_sgc.Base.{
  ℕ, zero, suc, ◌+◌, Bool, true, false, not, ◌&&◌, Option, none, some, List, [], ◌∷◌, ◌++◌, map,
  ltb, length,
}
use fogros2_sgc.Text.{Text, codes}
use fogros2_sgc.Base.Result.{Result, ok, err}
use fogros2_sgc.Text.Sets.{insert, lookup, contains}
use fogros2_sgc.Name.{show_name, GdpName}
use fogros2_sgc.Redis.{
  hsetnx, get_container_name, connect, Env, atomic_update, is_proxy_alive, now_ms,
}
use fogros2_sgc.Routing.{has_parent, RoutingState, has_publisher, has_proxy, add_edge_unique}
use fogros2_sgc.Routing.Fanout.{fanout}
use fogros2_sgc.Routing.Children.{
  build_children_map_insertion_order, build_children_map, ChildMap, children_at,
}
use fogros2_sgc.Routing.Tree.{all_proxies, candidates, seed_attach, to_move, graft, used_nodes_set}
use fogros2_sgc.Routing.Update.{
  max_retries, parse_state, read_value, Codec, to_json, cas_backoff, routing_key,
}
use fogros2_sgc.Base.Exec.{Exec}
use fogros2_sgc.Base.Int.{as_i64, ℤ}
use fogros2_sgc.Routing.Bfs.{bfs_intermediates_with_depth}

-- A loop of `subscribe` returns, or ends with the state that it changed.
pub data Flow : Type 0 where
  returned : Result Text (Unit {0}) → Flow
  continued : RoutingState → Flow

module _ (env : Env) (codec : Codec RoutingState) (url : Text) (topic : GdpName)
    (topic_name : Text) where
  open env use {World, error_text}

  unfoldable pub parent_is_usable : RoutingState → Text → World → Bool × World
  unfolding has_publisher has_proxy is_proxy_alive
  parent_is_usable st n w = elim (has_publisher st n) [
    | true ↦ (true, w)
    | false ↦ elim (has_proxy st n) [ true ↦ is_proxy_alive env url topic n w | false ↦ (false, w) ]
  ]

  -- `st.has_proxy(n) && !parent_is_usable(..)`
  unfoldable pub is_skipped : RoutingState → Text → World → Bool × World
  unfolding parent_is_usable
  is_skipped st n w = elim (has_proxy st n) [
    | true ↦ let (usable, w') = parent_is_usable st n w in (not usable, w')
    | false ↦ (false, w)
  ]

  -- `find` asks about a proxy only if it is unused.
  unfoldable pub find_unused : List Text → List Text → World → Option Text × World
  unfolding contains is_proxy_alive
  find_unused used [] w = (none, w)
  find_unused used (p ∷ ps) w = elim (contains used p) [
    | true ↦ find_unused used ps w
    | false ↦
        let (alive, w') = is_proxy_alive env url topic p w in
        elim alive [ true ↦ (some p, w') | false ↦ find_unused used ps w' ]
  ]

  unfoldable pub pick_unused_proxy : RoutingState → World → Option Text × World
  unfolding find_unused used_nodes_set
  pick_unused_proxy st = find_unused (used_nodes_set st) st.proxies

  -- The compare-and-swap of a changed state, and what follows a lost one.
  unfoldable pub commit_or : Text → ℕ → RoutingState → (World → Flow × World) → World → Flow × World
  unfolding to_json atomic_update routing_key cas_backoff
  commit_or old attempt st again w =
      let (r, w') = atomic_update env url (routing_key topic) (to_json codec st) old 1 w in
      elim r [
        | err e ↦ (returned (err (error_text e)), w')
        | ok true ↦ (returned (ok tt), w')
        | ok false ↦ again (cas_backoff env attempt w')
      ]

  module _ (subscriber : Text) (old : Text) (attempt : ℕ) where
    -- Pass 1: the first node with room.
    unfoldable pub attach_pass : ChildMap → List Text → RoutingState → World → Flow × World
    unfolding is_skipped children_at fanout add_edge_unique commit_or
    attach_pass children [] st w = (continued st, w)
    attach_pass children (n ∷ ns) st w =
        let (skipped, w1) = is_skipped st n w in
        let st' = add_edge_unique st n subscriber in
        elim (not skipped && ltb (length (children_at children n)) (fanout env.fanout_factor)) [
          | false ↦ attach_pass children ns st w1
          | true ↦ commit_or old attempt st' (attach_pass children ns st') w1
        ]

    no_unused_proxies : Result Text (Unit {0})
    no_unused_proxies =
        err (codes "No unused proxies available to grow routing tree for topic " ++ topic_name)

    -- Pass 2: a proxy is grafted under the first node with a child to move.
    unfoldable pub graft_pass : ChildMap → List (Text × ℕ) → RoutingState → World → Flow × World
    unfolding is_skipped children_at fanout all_proxies pick_unused_proxy to_move graft commit_or
        no_unused_proxies now_ms
    graft_pass children [] st w = (continued st, w)
    graft_pass children ((n, depth) ∷ ns) st w =
        let (skipped, w1) = is_skipped st n w in
        let ch = children_at children n in
        elim (not skipped && not (all_proxies st ch)) [
          | false ↦ graft_pass children ns st w1
          | true ↦
              let (picked, w2) = pick_unused_proxy st w1 in
              elim picked [
                | none ↦ (returned no_unused_proxies, w2)
                | some q ↦
                    let moved = to_move (fanout env.fanout_factor) st ch in
                    let (ts, w3) = now_ms env w2 in
                    let st' = graft st n q subscriber ts moved in
                    commit_or old attempt st' (graft_pass children ns st') w3
              ]
        ]

  -- One round of the `for attempt` loop, from the parsed state on: it returns, or the next round
  -- starts.
  unfoldable pub two_passes : Text → Text → ℕ → Text → RoutingState → World → Flow × World
  unfolding attach_pass graft_pass build_children_map build_children_map_insertion_order
      bfs_intermediates_with_depth candidates
  two_passes subscriber old attempt root st w =
      let nodes = bfs_intermediates_with_depth st root (build_children_map st.edges) in
      let (flow, w1) =
        attach_pass subscriber old attempt (build_children_map st.edges) (map (λ n. n.0) nodes) st
          w in
      elim flow [
        | returned r ↦ (returned r, w1)
        | continued st1 ↦
            graft_pass subscriber old attempt (build_children_map_insertion_order st.edges)
              (candidates nodes) st1 w1
      ]

  -- `st.attach_ms.entry(subscriber).or_insert_with(now_ms_i64)`, then the times of the listeners.
  unfoldable pub stamp_attachments : Text → RoutingState → World → RoutingState × World
  unfolding now_ms seed_attach lookup insert
  stamp_attachments subscriber st w =
      let (stamped, w1) =
        (let now = now_ms env w in
          let none_yet : List (Text × ℤ) × World = (insert subscriber now.0 st.attach_ms, now.1) in
          let times : List (Text × ℤ) × World = elim (lookup subscriber st.attach_ms) [
            | none ↦ none_yet
            | some t ↦ (st.attach_ms, w)
          ] in
          times) in
      let (seed, w2) = now_ms env w1 in
      (record st { attach_ms = seed_attach st seed st.edges stamped }, w2)

  no_publishers : Result Text (Unit {0})
  no_publishers = err (codes "No publishers registered yet for topic " ++ topic_name)

  -- A node that has a parent is done; any other is stamped and placed.
  unfoldable pub join_tree : Text → Text → ℕ → Text → RoutingState → Bool → World → Flow × World
  unfolding stamp_attachments two_passes
  join_tree subscriber old attempt root st true w = (returned (ok tt), w)
  join_tree subscriber old attempt root st false w =
      let (st1, w1) = stamp_attachments subscriber st w in
      two_passes subscriber old attempt root st1 w1

  unfoldable pub subscribe_round : Text → ℕ → World → Flow × World
  unfolding read_value parse_state has_parent join_tree no_publishers
  subscribe_round subscriber attempt w =
      let (old, w1) = read_value env codec url topic w in
      let st = parse_state codec old in
      elim st.publishers [
        | [] ↦ (returned no_publishers, w1)
        | root ∷ others ↦ join_tree subscriber old attempt root st (has_parent st subscriber) w1
      ]

  -- The benchmark hook: its failures are dropped, a clock before the epoch among them.
  unfoldable pub mark_attempt : World → World
  unfolding connect get_container_name
  mark_attempt w =
      let (r, w1) = connect env url w in
      let (t, w2) = env.clock w1 in
      elim r [
        | err e ↦ w1
        | ok con ↦ elim t [
          | none ↦ w2
          | some ms ↦
              (env.query ℤ con
                (hsetnx (codes "bench_join_attempt_ms") (get_container_name env) (as_i64 ms)) w2).1
        ]
      ]

  subscribe_exhausted : GdpName → Result Text (Unit {0})
  subscribe_exhausted subscriber = err (
      codes "Failed to subscribe "
      ++ (show_name subscriber
          ++ (codes " to topic " ++ (topic_name ++ codes " (CAS retries exceeded)"))))

  unfoldable pub subscribe_rounds : GdpName → ℕ → ℕ → Exec World Text (Unit {0})
  unfolding subscribe_round cas_backoff subscribe_exhausted
  subscribe_rounds subscriber zero attempt w = (subscribe_exhausted subscriber, w)
  subscribe_rounds subscriber (suc rounds) attempt w =
      let (flow, w1) = subscribe_round (show_name subscriber) attempt w in
      elim flow [
        | returned r ↦ (r, w1)
        | continued st ↦
            subscribe_rounds subscriber rounds (attempt + 1) (cas_backoff env attempt w1)
      ]

  unfoldable pub subscribe : GdpName → Exec World Text (Unit {0})
  unfolding mark_attempt subscribe_rounds
  subscribe subscriber w = subscribe_rounds subscriber max_retries 0 (mark_attempt w)
