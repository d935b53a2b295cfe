-- ===== src/Routing/Update/Quiet.antt =====
-- On a server that no other client uses, the register and disconnect calls do what they are for.
use fogros2_sgc.Base.{
  ℕ, suc, ◌≡◌, refl, sym, ap, subst, ◌∙◌, ◌↔◌, inl, inr, Bool, true, false, ◌||◌, Option, some,
  List, [], ◌∷◌, arith, Bool-cases,
}
use fogros2_sgc.Text.{Text, ◌==◌, eq_iff}
use fogros2_sgc.Routing.Update.{
  register_publisher, register_proxy, disconnect, update_loop, read_value, parse_state, to_json,
  routing_key, Codec,
}
use fogros2_sgc.Redis.{
  Env, connect, try_atomic_update, atomic_update, get_string, commit_if, watch, get, exec_set,
  or_default,
}
use fogros2_sgc.Routing.{joined, has_proxy, has_publisher, RoutingState, add_proxy, add_publisher}
use fogros2_sgc.Name.{GdpName, show_name}
use fogros2_sgc.Base.Result.{ok, Result}
use fogros2_sgc.Routing.Tree.{detach}
use fogros2_sgc.Routing.Update.Keeps.{IsFaithful, parse-to_json}
use fogros2_sgc.Routing.Tree.Detach.{detach_isolates, joined-detach}
use fogros2_sgc.Routing.Bfs.Walk.{Walk}
use fogros2_sgc.Text.Sets.{contains, contains-append}

add_publisher-contains :
    (st : RoutingState) (n m : Text)
    → contains (add_publisher st n).publishers m ≡ (m == n || contains st.publishers m)
unfolding add_publisher has_publisher contains
add_publisher-contains st n m = elim (Bool-cases (contains st.publishers n)) [
  | inl there ↦ rw there (ground (arith, there, eq_iff m n))
  | inr new ↦
      rw new (contains-append st.publishers (n ∷ []) m ∙ ground (arith, eq_iff m n, eq_iff n m))
]

add_publisher-others :
    (st : RoutingState) (n : Text)
    → ((add_publisher st n).proxies ≡ st.proxies) × ((add_publisher st n).edges ≡ st.edges)
unfolding add_publisher
add_publisher-others st n = elim (Bool-cases (has_publisher st n)) [
  | inl there ↦ rw there (refl, refl)
  | inr new ↦ rw new (refl, refl)
]

add_proxy-contains :
    (st : RoutingState) (n m : Text)
    → contains (add_proxy st n).proxies m ≡ (m == n || contains st.proxies m)
unfolding add_proxy has_proxy contains
add_proxy-contains st n m = elim (Bool-cases (contains st.proxies n)) [
  | inl there ↦ rw there (ground (arith, there, eq_iff m n))
  | inr new ↦
      rw new (contains-append st.proxies (n ∷ []) m ∙ ground (arith, eq_iff m n, eq_iff n m))
]

add_proxy-others :
    (st : RoutingState) (n : Text)
    → ((add_proxy st n).publishers ≡ st.publishers) × ((add_proxy st n).edges ≡ st.edges)
unfolding add_proxy
add_proxy-others st n = elim (Bool-cases (has_proxy st n)) [
  | inl there ↦ rw there (refl, refl)
  | inr new ↦ rw new (refl, refl)
]

-- The server opens, and keeps one value under the key: it is read as it is, and a transaction commits.
pub record Quiet (env : Env) (url key : Text) : Type 0 where
  pub value : env.World → Option Text
  pub con : env.World → env.Conn
  pub opens : (w : env.World) → (connect env url w).0 ≡ ok (con w)
  pub opens_same : (w : env.World) → value (connect env url w).1 ≡ value w
  pub watches : (c : env.Conn) (w : env.World) → (env.query (Unit {0}) c (watch key) w).0 ≡ ok tt
  pub watches_same :
      (c : env.Conn) (w : env.World) → value (env.query (Unit {0}) c (watch key) w).1 ≡ value w
  pub gets :
      (c : env.Conn) (w : env.World) → (env.query (Option Text) c (get key) w).0 ≡ ok (value w)
  pub gets_same :
      (c : env.Conn) (w : env.World) → value (env.query (Option Text) c (get key) w).1 ≡ value w
  pub reply : env.Conn → Text → env.World → List Text
  pub sets :
      (c : env.Conn) (v : Text) (w : env.World)
      → (env.query (Option (List Text)) c (exec_set key v) w).0 ≡ ok (some (reply c v w))
  pub sets_value :
      (c : env.Conn) (v : Text) (w : env.World)
      → value (env.query (Option (List Text)) c (exec_set key v) w).1 ≡ some v

module _ (env : Env) (url key : Text) (quiet : Quiet env url key) where
  open quiet use {value, con}

  abbrev Done : Text → Result env.RedisError Bool × env.World → Type 0
  Done new r = (r.0 ≡ ok true) × (value r.1 ≡ some new)

  commit_if-quiet :
      (c : env.Conn) (new : Text) (b : Bool) (w : env.World)
      → b ≡ true
      → Done new (commit_if env c key new b w)
  unfolding commit_if
  commit_if-quiet c new false w h = absurd (cc)
  commit_if-quiet c new true w h =
      (rw (quiet.sets c new w) refl, rw (quiet.sets c new w) (quiet.sets_value c new w))

  try_atomic_update-quiet :
      (new old : Text) (w : env.World)
      → or_default (value w) ≡ old
      → Done new (try_atomic_update env url key new old w)
  unfolding try_atomic_update
  try_atomic_update-quiet new old w same =
      let w1 = (connect env url w).1 in
      let c = con w in
      let w2 = (env.query (Unit {0}) c (watch key) w1).1 in
      let unchanged : value w2 ≡ value w = quiet.watches_same c w1 ∙ quiet.opens_same w in
      let equal : (or_default (value w2) == old) ≡ true =
        (eq_iff (or_default (value w2)) old).1 (ap or_default unchanged ∙ same) in
      rw (quiet.opens w) (
        rw (quiet.watches c w1) (
          rw (quiet.gets c w2) (
            commit_if-quiet c new (or_default (value w2) == old)
              (env.query (Option Text) c (get key) w2).1 equal)))

  atomic_update-quiet :
      (new old : Text) (w : env.World)
      → or_default (value w) ≡ old
      → Done new (atomic_update env url key new old 1 w)
  unfolding atomic_update
  atomic_update-quiet new old w same =
      let (done, stored) = try_atomic_update-quiet new old w same in (rw done refl, rw done stored)

module _ (env : Env) (codec : Codec RoutingState) (url : Text) (topic : GdpName)
    (quiet : Quiet env url (routing_key topic)) where
  open quiet use {value, con}

  read_value-quiet :
      (w : env.World)
      → ((read_value env codec url topic w).0 ≡ or_default (value w))
        × (value (read_value env codec url topic w).1 ≡ value w)
  unfolding read_value get_string
  read_value-quiet w =
      let w1 = (connect env url w).1 in
      (
        rw (quiet.opens w) (rw (quiet.gets (con w) w1) (ap or_default (quiet.opens_same w))),
        rw (quiet.opens w) (quiet.gets_same (con w) w1 ∙ quiet.opens_same w),
      )

  -- The call succeeds, and the value is the change of what it was.
  abbrev pub Changes :
      (RoutingState → RoutingState) → env.World → Result Text (Unit {0}) × env.World → Type 0
  Changes change w r =
      (r.0 ≡ ok tt)
      × (value r.1 ≡ some (to_json codec (change (parse_state codec (or_default (value w))))))

  update_loop-quiet :
      (change : RoutingState → RoutingState) (failed : Text) (rounds : ℕ) (w : env.World)
      → Changes change w (update_loop env codec url topic change failed (suc rounds) w)
  unfolding update_loop
  update_loop-quiet change failed rounds w =
      let (read, same) = read_value-quiet w in
      let old = read_value env codec url topic w in
      let new = to_json codec (change (parse_state codec old.0)) in
      let (done, stored) =
        atomic_update-quiet env url (routing_key topic) quiet new old.0 old.1
          (ap or_default same ∙ sym read) in
      (
        rw (done, update_loop) refl,
        rw (done, update_loop)
            (stored ∙ ap (λ s. some (to_json codec (change (parse_state codec s)))) read),
      )

  module _ (faithful : IsFaithful codec) where
    -- The state under the key.
    abbrev pub stored : env.World → RoutingState
    stored w = parse_state codec (or_default (value w))

    -- The value is one that the codec reads back as the change of what was there.
    Changes-read :
        (change : RoutingState → RoutingState) (w : env.World)
        (r : Result Text (Unit {0}) × env.World)
        → Changes change w r
        → (r.0 ≡ ok tt)
          × ((stored r.1).publishers ≡ (change (stored w)).publishers)
          × ((stored r.1).proxies ≡ (change (stored w)).proxies)
          × ((stored r.1).edges ≡ (change (stored w)).edges)
    Changes-read change w r h =
        let back = faithful (change (stored w)) in
        let read = ap (λ v. parse_state codec (or_default v)) h.1 ∙ parse-to_json codec _ back in
        (
          h.0,
          ap (λ (st : RoutingState). st.publishers) read ∙ back.same_publishers,
          ap (λ (st : RoutingState). st.proxies) read ∙ back.same_proxies,
          ap (λ (st : RoutingState). st.edges) read ∙ back.same_edges,
        )

    -- The call succeeds, and the key's state has the node and those of before as publishers.
    abbrev pub Publishes : Text → env.World → Result Text (Unit {0}) × env.World → Type 0
    Publishes node w r =
        (r.0 ≡ ok tt)
        × ((m : Text)
            → contains (stored r.1).publishers m ≡ (m == node || contains (stored w).publishers m))
        × ((stored r.1).proxies ≡ (stored w).proxies)
        × ((stored r.1).edges ≡ (stored w).edges)

    -- The same for the proxies.
    abbrev pub Offers : Text → env.World → Result Text (Unit {0}) × env.World → Type 0
    Offers node w r =
        (r.0 ≡ ok tt)
        × ((stored r.1).publishers ≡ (stored w).publishers)
        × ((m : Text)
            → contains (stored r.1).proxies m ≡ (m == node || contains (stored w).proxies m))
        × ((stored r.1).edges ≡ (stored w).edges)

    -- The call succeeds, and just the edges whose ends no walk from the node reaches are left.
    abbrev pub Prunes : Text → env.World → Result Text (Unit {0}) × env.World → Type 0
    Prunes node w r =
        (r.0 ≡ ok tt)
        × ((stored r.1).publishers ≡ (stored w).publishers)
        × ((stored r.1).proxies ≡ (stored w).proxies)
        × ((p c : Text)
            → (joined (stored r.1).edges p c ≡ true) ↔ (
                (joined (stored w).edges p c ≡ true)
                × ¬ Walk (λ v. true) (stored w).edges node p
                × ¬ Walk (λ v. true) (stored w).edges node c))

    pub register_publisher-Publishes :
        (node : GdpName) (topic_name : Text) (w : env.World)
        → Publishes (show_name node) w (register_publisher env codec url topic node topic_name w)
    unfolding register_publisher
    register_publisher-Publishes node topic_name w =
        let add = λ (st : RoutingState). add_publisher st (show_name node) in
        let h = Changes-read add w _ (update_loop-quiet add _ 127 w) in
        let (proxies, edges) = add_publisher-others (stored w) (show_name node) in
        (
          h.0,
          λ m. ap (λ ps. contains ps m) h.1 ∙ add_publisher-contains (stored w) (show_name node) m,
          h.2 ∙ proxies,
          h.3 ∙ edges,
        )

    pub register_proxy-Offers :
        (node : GdpName) (topic_name : Text) (w : env.World)
        → Offers (show_name node) w (register_proxy env codec url topic node topic_name w)
    unfolding register_proxy
    register_proxy-Offers node topic_name w =
        let add = λ (st : RoutingState). add_proxy st (show_name node) in
        let h = Changes-read add w _ (update_loop-quiet add _ 127 w) in
        let (publishers, edges) = add_proxy-others (stored w) (show_name node) in
        (
          h.0,
          h.1 ∙ publishers,
          λ m. ap (λ ps. contains ps m) h.2 ∙ add_proxy-contains (stored w) (show_name node) m,
          h.3 ∙ edges,
        )

    disconnect-Prunes :
        (node : GdpName) (w : env.World)
        → Prunes (show_name node) w (disconnect env codec url topic node w)
    unfolding disconnect
    disconnect-Prunes node w =
        let cut = λ (st : RoutingState). detach st (show_name node) in
        let h = Changes-read cut w _ (update_loop-quiet cut _ 127 w) in
        let (from, into, publishers, proxies) =
          detach_isolates (stored w) (show_name node) (show_name node) in
        (
          h.0,
          h.1 ∙ publishers,
          h.2 ∙ proxies,
          λ p c.
              subst
                (λ es. (joined es p c ≡ true) ↔ (
                  (joined (stored w).edges p c ≡ true)
                  × ¬ Walk (λ v. true) (stored w).edges (show_name node) p
                  × ¬ Walk (λ v. true) (stored w).edges (show_name node) c))
                (sym h.3) (joined-detach (stored w) (show_name node) p c),
        )

    -- On a server that no other client uses, that opens and commits, and with a codec that reads back what
    -- it writes, each of the three calls succeeds. The state that the key's value then reads as: after
    -- the first, the publishers are those of before and the node, with the same proxies and edges; after
    -- the second, the same of the proxies; after the third, the registrations are those of before, and
    -- just the edges are left that were there and of which no walk from the node reaches an end.
    pub calls_succeed :
        (node : GdpName) (topic_name : Text) (w : env.World)
        → Publishes (show_name node) w (register_publisher env codec url topic node topic_name w)
          × Offers (show_name node) w (register_proxy env codec url topic node topic_name w)
          × Prunes (show_name node) w (disconnect env codec url topic node w)
    calls_succeed node topic_name w = (
      register_publisher-Publishes node topic_name w,
      register_proxy-Offers node topic_name w,
      disconnect-Prunes node w,
    )
