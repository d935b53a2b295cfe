-- ===== src/Routing/Update/Keeps.antt =====
-- The registering, subscribing and disconnecting code of core/src/routing.rs writes only valid
-- states, if all other clients do: `disconnect`, `register_publisher`, `register_proxy` here.
use fogros2_sgc.Base.{ℕ, zero, suc, ◌≡◌, refl, inl, inr, Bool, true, false, some, []}
use fogros2_sgc.Text.{Text}
use fogros2_sgc.Redis.{atomic_update, get_string, Env}
use fogros2_sgc.Redis.Rely.{atomic_update-holds, get_string-good, get_string-holds, Rely}
use fogros2_sgc.Routing.{add_proxy, add_publisher, blank, RoutingState}
use fogros2_sgc.Routing.Tree.Valid.{
  blank-IsValid, add_proxy-IsValid, add_publisher-IsValid, detach-IsValid, IsValid,
}
use fogros2_sgc.Routing.Update.{
  max_retries, disconnect, read_value, register_proxy, register_publisher, routing_key, update_loop,
  Codec, parse_state, to_json,
}
use fogros2_sgc.Name.{show_name, GdpName}
use fogros2_sgc.Text.Blank.{is_blank}
use fogros2_sgc.Base.Result.{Result, Result-cases}
use fogros2_sgc.Routing.Tree.{detach}
use fogros2_sgc.Text.Sets.{lookup}

-- The codec reads back what it wrote: the lists as they were, the map as a map.
pub record ReadsBack (codec : Codec RoutingState) (st : RoutingState) : Type 0 where
  pub written : Text
  pub read : RoutingState
  pub writes : codec.to_string st ≡ some written
  pub reads : codec.from_str written ≡ some read
  pub not_blank : is_blank written ≡ false
  pub same_publishers : read.publishers ≡ st.publishers
  pub same_proxies : read.proxies ≡ st.proxies
  pub same_edges : read.edges ≡ st.edges
  pub same_times : (n : Text) → lookup n read.attach_ms ≡ lookup n st.attach_ms

abbrev pub IsFaithful : Codec RoutingState → Type 0
IsFaithful codec = (st : RoutingState) → ReadsBack codec st

pub parse-to_json :
    (codec : Codec RoutingState) (st : RoutingState) (b : ReadsBack codec st)
    → parse_state codec (to_json codec st) ≡ b.read
unfolding parse_state to_json
parse-to_json codec st b = rw (b.writes, to_json) (rw (b.not_blank, b.reads))

-- The invariant speaks of the lists alone.
pub IsValid-lists :
    (f : ℕ) (st t : RoutingState)
    → t.publishers ≡ st.publishers
    → t.proxies ≡ st.proxies
    → t.edges ≡ st.edges
    → IsValid f st
    → IsValid f t
IsValid-lists f st t p q e h = record {
  publishers_distinct = rw p h.publishers_distinct;
  proxies_distinct = rw q h.proxies_distinct;
  edges_distinct = rw e h.edges_distinct;
  fanout_kept = λ n. rw e (h.fanout_kept n);
}

module _ (env : Env) (codec : Codec RoutingState) (faithful : IsFaithful codec) (f : ℕ)
    (topic : GdpName) where
  -- The values of the topic's key are valid states.
  abbrev pub GoodValue : Text → Text → Type 0
  GoodValue key v = key ≡ routing_key topic → IsValid f (parse_state codec v)

  pub to_json-Good :
      (st : RoutingState) (key : Text) → IsValid f st → GoodValue key (to_json codec st)
  to_json-Good st key h _ =
      let b = faithful st in
      rw (parse-to_json codec st b)
        (IsValid-lists f st b.read b.same_publishers b.same_proxies b.same_edges h)

  module _ (rely : Rely env GoodValue) (url : Text) where
    open rely use {holds}

    parse-empty : parse_state codec [] ≡ blank
    unfolding parse_state
    parse-empty = refl

    pub read_value-IsValid :
        (w : env.World)
        → holds w
        → IsValid f (parse_state codec (read_value env codec url topic w).0)
    unfolding read_value
    read_value-IsValid w h = elim (Result-cases (get_string env url (routing_key topic) w).0) [
      | inl (v, e) ↦ rw e (get_string-good env GoodValue rely url (routing_key topic) w v h e refl)
      | inr (x, e) ↦ rw (e, parse-empty) (blank-IsValid f)
    ]

    pub read_value-holds : (w : env.World) → holds w → holds (read_value env codec url topic w).1
    unfolding read_value
    read_value-holds w h = get_string-holds env GoodValue rely url (routing_key topic) w h

    -- A loop whose change keeps the invariant keeps the property of the world.
    pub update_loop-holds :
        (change : RoutingState → RoutingState) (failed : Text)
        → ((st : RoutingState) → IsValid f st → IsValid f (change st))
        → (rounds : ℕ) (w : env.World) → holds w
        → holds (update_loop env codec url topic change failed rounds w).1
    unfolding update_loop
    update_loop-holds change failed keep zero w h = h
    update_loop-holds change failed keep (suc rounds) w h = elim (Result-cases r.0) [
      | inl (true, e) ↦ rw e after
      | inl (false, e) ↦ rw e (update_loop-holds change failed keep rounds r.1 after)
      | inr (x, e) ↦ rw e after
    ]
      where
        old : Text × env.World
        old = read_value env codec url topic w

        new : RoutingState
        new = change (parse_state codec old.0)

        r : Result env.RedisError Bool × env.World
        r = atomic_update env url (routing_key topic) (to_json codec new) old.0 1 old.1

        after : holds r.1
        after =
            atomic_update-holds env GoodValue rely url (routing_key topic) (to_json codec new) old.0
              1 old.1
              (to_json-Good new (routing_key topic)
                (keep (parse_state codec old.0) (read_value-IsValid w h)))
              (read_value-holds w h)

    -- With a codec that reads back the states it writes, and on a server that keeps the values of the
    -- topic's key valid as long as this client writes valid ones, `register_publisher` does so, however
    -- many rounds it takes and whether or not it succeeds.
    pub register_publisher-holds :
        (p : GdpName) (topic_name : Text) (w : env.World)
        → holds w
        → holds (register_publisher env codec url topic p topic_name w).1
    unfolding register_publisher
    register_publisher-holds p topic_name w h =
        update_loop-holds (λ st. add_publisher st (show_name p)) _
          (λ st v. add_publisher-IsValid f st (show_name p) v) max_retries w h

    -- With a codec that reads back the states it writes, and on a server that keeps the values of the
    -- topic's key valid as long as this client writes valid ones, `register_proxy` does so, however
    -- many rounds it takes and whether or not it succeeds.
    pub register_proxy-holds :
        (p : GdpName) (topic_name : Text) (w : env.World)
        → holds w
        → holds (register_proxy env codec url topic p topic_name w).1
    unfolding register_proxy
    register_proxy-holds p topic_name w h =
        update_loop-holds (λ st. add_proxy st (show_name p)) _
          (λ st v. add_proxy-IsValid f st (show_name p) v) max_retries w h

    -- With a codec that reads back the states it writes, and on a server that keeps the values of the
    -- topic's key valid as long as this client writes valid ones, `disconnect` does so, however
    -- many rounds it takes and whether or not it succeeds.
    pub disconnect-holds :
        (n : GdpName) (w : env.World) → holds w → holds (disconnect env codec url topic n w).1
    unfolding disconnect
    disconnect-holds n w h =
        update_loop-holds (λ st. detach st (show_name n)) _
          (λ st v. detach-IsValid f st (show_name n) v) max_retries w h

    -- With a codec that reads back the states it writes, and on a server that keeps the values of the
    -- topic's key valid as long as this client writes valid ones, each of `register_publisher`,
    -- `register_proxy` and `disconnect` does so, however many rounds it takes and whether or not it
    -- succeeds.
    pub calls-hold :
        (n : GdpName) (topic_name : Text) (w : env.World)
        → holds w
        → holds (register_publisher env codec url topic n topic_name w).1
          × holds (register_proxy env codec url topic n topic_name w).1
          × holds (disconnect env codec url topic n w).1
    calls-hold n topic_name w h = (
      register_publisher-holds n topic_name w h,
      register_proxy-holds n topic_name w h,
      disconnect-holds n w h,
    )
