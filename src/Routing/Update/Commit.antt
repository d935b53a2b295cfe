-- ===== src/Routing/Update/Commit.antt =====
-- What a successful compare-and-swap says, and what `subscribe` does after a lost one.
use fogros2_sgc.Base.{
  ℕ, zero, suc, ◌<◌, ◌≡◌, refl, ap, ◌∙◌, inl, inr, Bool, true, false, Option, none, some, List, ◌∷◌,
  arith, ltb, length,
}
use fogros2_sgc.Text.{Text, ◌==◌, eq_iff, eq_refl}
use fogros2_sgc.Redis.{
  atomic_update, watch, get, connect, commit_if, exec_set, or_default, try_atomic_update, Env,
}
use fogros2_sgc.Base.Result.{Result, ok, Result-cases}
use fogros2_sgc.Routing.Update.{
  Codec, cas_backoff, parse_state, read_value, routing_key, to_json, update_loop,
}
use fogros2_sgc.Routing.Children.{ChildMap, children_at}
use fogros2_sgc.Routing.Edges.{joined-add}
use fogros2_sgc.Routing.Update.Subscribe.{Flow, is_skipped, attach_pass, commit_or}
use fogros2_sgc.Name.{GdpName}
use fogros2_sgc.Routing.{joined, RoutingState, add_edge_unique, has_proxy}
use fogros2_sgc.Routing.Fanout.{fanout}
use fogros2_sgc.Routing.Tree.Valid.{add_edge-registries}
use fogros2_sgc.Text.Sets.{contains}

-- What was seen on the way: a connection, the value read under the watch, which is the old one,
-- and a reply of EXEC that is not the null of an aborted transaction.
pub record Committed (env : Env) (url key new old : Text) (w : env.World) : Type 0 where
  pub con : env.Conn
  pub current : Option Text
  pub reply : List Text
  pub connected : (connect env url w).0 ≡ ok con
  pub current_read :
      (env.query
        (Option Text)
        con
        (get key)
        (env.query (Unit {0}) con (watch key) (connect env url w).1).1).0
      ≡ ok current
  pub unchanged : or_default current ≡ old
  pub executed :
      (env.query
        (Option (List Text))
        con
        (exec_set key new)
        (env.query
          (Option Text)
          con
          (get key)
          (env.query (Unit {0}) con (watch key) (connect env url w).1).1).1).0
      ≡ ok (some reply)

module _ (env : Env) (url key new old : Text) where
  commit_if-true :
      (con : env.Conn) (b : Bool) (w : env.World)
      → (commit_if env con key new b w).0 ≡ ok true
      → (b ≡ true)
        × (reply : List Text) × ((env.query (Option (List Text)) con (exec_set key new) w).0
            ≡ ok (some reply))
  unfolding commit_if
  commit_if-true con true w h =
      elim (Result-cases (env.query (Option (List Text)) con (exec_set key new) w).0) [
        | inl (some reply, e) ↦ (refl, reply, e)
        | inl (none, e) ↦ absurd (cc (rw e at h))
        | inr (x, e) ↦ absurd (cc (rw e at h))
      ]
  commit_if-true con false w h = absurd (cc)

  pub try_atomic_update-true :
      (w : env.World)
      → (try_atomic_update env url key new old w).0 ≡ ok true
      → Committed env url key new old w
  unfolding try_atomic_update
  try_atomic_update-true w h = elim (Result-cases (connect env url w).0) [
    | inr (x, e) ↦ absurd (cc (rw e at h))
    | inl (con, e) ↦
        let w1 = (connect env url w).1 in
        let h1 = rw e at h in
        elim (Result-cases (env.query (Unit {0}) con (watch key) w1).0) [
          | inr (x, e1) ↦ absurd (cc (rw e1 at h1))
          | inl (u, e1) ↦
              let w2 = (env.query (Unit {0}) con (watch key) w1).1 in
              let h2 = rw e1 at h1 in
              elim (Result-cases (env.query (Option Text) con (get key) w2).0) [
                | inr (x, e2) ↦ absurd (cc (rw e2 at h2))
                | inl (current, e2) ↦
                    let (same, reply, done) =
                      commit_if-true con (or_default current == old)
                        (env.query (Option Text) con (get key) w2).1 (rw e2 at h2) in
                    record {
                      con = con;
                      current = current;
                      reply = reply;
                      connected = e;
                      current_read = e2;
                      unchanged = (eq_iff (or_default current) old).0 same;
                      executed = done;
                    }
              ]
        ]
  ]

module _ (env : Env) (codec : Codec RoutingState) (url : Text) (topic : GdpName) where
  pub atomic_update-one :
      (key new old : Text) (w : env.World)
      → (atomic_update env url key new old 1 w).0 ≡ ok true
      → (try_atomic_update env url key new old w).0 ≡ ok true
  unfolding atomic_update
  atomic_update-one key new old w h =
      elim (Result-cases (try_atomic_update env url key new old w).0) [
        | inr (x, e) ↦ absurd (cc (rw e at h))
        | inl (true, e) ↦ e
        | inl (false, e) ↦ absurd (cc (rw e at h))
      ]

  -- When a register or disconnect call succeeds, some round read a value, and wrote the change of
  -- just that value while it was still the current one.
  pub update_loop-ok :
      (change : RoutingState → RoutingState) (failed : Text) (rounds : ℕ) (w : env.World)
      → (update_loop env codec url topic change failed rounds w).0 ≡ ok tt
      → (v : env.World) × (let (old, v1) = read_value env codec url topic v in
          Committed env url
            (routing_key topic)
            (to_json codec (change (parse_state codec old)))
            old
            v1)
  unfolding update_loop
  update_loop-ok change failed zero w h = absurd (cc)
  update_loop-ok change failed (suc rounds) w h = elim (Result-cases r.0) [
    | inl (true, e) ↦ (
      w,
      try_atomic_update-true env url (routing_key topic) new old.0 old.1
          (atomic_update-one (routing_key topic) new old.0 old.1 e),
    )
    | inl (false, e) ↦ update_loop-ok change failed rounds r.1 (rw e at h)
    | inr (x, e) ↦ absurd (cc (rw e at h))
  ]
    where
      old : Text × env.World
      old = read_value env codec url topic w

      new : Text
      new = to_json codec (change (parse_state codec old.0))

      r : Result env.RedisError Bool × env.World
      r = atomic_update env url (routing_key topic) new old.0 1 old.1

  module _ (topic_name subscriber old : Text) (attempt : ℕ) (children : ChildMap) where
    is_skipped-plain :
        (st : RoutingState) (n : Text) (w : env.World)
        → has_proxy st n ≡ false
        → is_skipped env codec url topic topic_name st n w ≡ (false, w)
    unfolding is_skipped
    is_skipped-plain st n w plain = rw (plain, is_skipped)

    attach_pass-room :
        (n : Text) (ns : List Text) (st : RoutingState) (w : env.World)
        → has_proxy st n ≡ false
        → length (children_at children n) < fanout env.fanout_factor
        → attach_pass env codec url topic topic_name subscriber old attempt children (n ∷ ns) st w
          ≡ commit_or env codec url topic topic_name old attempt
              (add_edge_unique st n subscriber)
              (attach_pass env codec url topic topic_name subscriber old attempt children ns
                (add_edge_unique st n subscriber))
              w
    attach_pass-room n ns st w plain room =
        let fits : ltb (length (children_at children n)) (fanout env.fanout_factor) ≡ true =
          ground arith in
        unfold attach_pass in
        rw (is_skipped-plain st n w plain, attach_pass)
          (rw (fits, attach_pass)
            (ap
              (commit_or env codec url topic topic_name old attempt
                (add_edge_unique st n subscriber)
                (attach_pass env codec url topic topic_name subscriber old attempt children ns
                  (add_edge_unique st n subscriber)))
              (ap (λ (r : Bool × env.World). r.1) (is_skipped-plain st n w plain))))

    commit_or-lost :
        (st : RoutingState) (again : env.World → Flow × env.World) (w : env.World)
        → (atomic_update env url (routing_key topic) (to_json codec st) old 1 w).0 ≡ ok false
        → commit_or env codec url topic topic_name old attempt st again w
          ≡ again (
              cas_backoff env attempt
                (atomic_update env url (routing_key topic) (to_json codec st) old 1 w).1)
    unfolding commit_or
    commit_or-lost st again w lost = rw (lost, commit_or)

    add_edge-proxies :
        (st : RoutingState) (n m : Text)
        → has_proxy (add_edge_unique st n subscriber) m ≡ has_proxy st m
    unfolding has_proxy
    add_edge-proxies st n m = ap (λ ps. contains ps m) (add_edge-registries st n subscriber).1

    -- Pass 1 of `subscribe` does not start over after a lost compare-and-swap: with room at the next
    -- node it tries to write, against the same old value, a state in which the subscriber is a child
    -- of both nodes.
    pub attach_pass-lost :
        (n m : Text) (ns : List Text) (st : RoutingState) (w : env.World)
        → has_proxy st n ≡ false
        → has_proxy st m ≡ false
        → length (children_at children n) < fanout env.fanout_factor
        → length (children_at children m) < fanout env.fanout_factor
        → (atomic_update env url
            (routing_key topic)
            (to_json codec (add_edge_unique st n subscriber))
            old
            1
            w).0
          ≡ ok false
        → let w1 =
            (atomic_update env url
              (routing_key topic)
              (to_json codec (add_edge_unique st n subscriber))
              old
              1
              w).1 in
          let st2 = add_edge_unique (add_edge_unique st n subscriber) m subscriber in
          (attach_pass env codec url topic topic_name subscriber old attempt children
              (n ∷ m ∷ ns)
              st
              w
            ≡ commit_or env codec url topic topic_name old attempt st2
                (attach_pass env codec url topic topic_name subscriber old attempt children ns st2)
                (cas_backoff env attempt w1))
          × (joined st2.edges n subscriber ≡ true)
          × (joined st2.edges m subscriber ≡ true)
    attach_pass-lost n m ns st w pn pm rn rm lost =
        let st1 = add_edge_unique st n subscriber in
        let w1 = (atomic_update env url (routing_key topic) (to_json codec st1) old 1 w).1 in
        (
          attach_pass-room n (m ∷ ns) st w pn rn
              ∙ commit_or-lost st1
                  (attach_pass env codec url topic topic_name subscriber old attempt children
                    (m ∷ ns) st1)
                  w lost
              ∙ attach_pass-room m ns st1 (cas_backoff env attempt w1)
                  (add_edge-proxies st n m ∙ pm) rm,
          ground (
            arith,
            joined-add st n subscriber n subscriber,
            joined-add st1 m subscriber n subscriber,
            eq_refl n,
            eq_refl subscriber,
          ),
          ground (arith, joined-add st1 m subscriber m subscriber, eq_refl m, eq_refl subscriber),
        )
