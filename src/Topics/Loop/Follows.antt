-- ===== src/Topics/Loop/Follows.antt =====
-- The loop of the topic manager against its specification: the connections of the edges that were
-- read last.
use fogros2_sgc.Base.{
  ℕ, zero, suc, ◌≡◌, refl, ap, ◌∙◌, inl, inr, Bool, false, ◌&&◌, Option, List, [], ◌∷◌, ◌++◌, map,
  arith,
}
use fogros2_sgc.Text.{Text}
use fogros2_sgc.Topics.Loop.{
  manage, on_read, reads, fresh, manage_topic_connections, left_after_try_recv,
}
use fogros2_sgc.Topics.Reconcile.{InSync, reconcile-InSync}
use fogros2_sgc.Routing.Update.{
  parse_state, read_value, routing_key, Codec, edge_connections, current_connections,
}
use fogros2_sgc.Routing.Update.Connections.{AllBytes}
use fogros2_sgc.Name.Bytes.{parse_name-IsBytes}
use fogros2_sgc.Redis.{Env, get_string, or_default}
use fogros2_sgc.Name.{
  GdpName, ParseIntError, connection_id, is_node_involved, parse_name, show_connection, Connection,
  IsBytes, connection_from_str, parse_parts,
}
use fogros2_sgc.Routing.{RoutingState, Edge}
use fogros2_sgc.Base.Result.{◌>>=◌, err, ok, Result, Result-cases}
use fogros2_sgc.Text.Parts.{split}
use fogros2_sgc.Topics.{Manager, has_key}
use fogros2_sgc.Redis.Watch.{Watcher}
use fogros2_sgc.Text.Sets.{lookup, contains}

-- The edges of the last read that did not fail.
abbrev pub latest : List Connection → List (Result Text (List Connection)) → List Connection
latest edges [] = edges
latest edges (ok all_edges ∷ rs) = latest all_edges rs
latest edges (err e ∷ rs) = latest edges rs

joined :
    (r1 r2 : Result ParseIntError GdpName) (c : Connection)
    → (r1 >>= λ p. r2 >>= λ s. ok (record { publisher = p; subscriber = s })) ≡ ok c
    → (r1 ≡ ok c.publisher) × (r2 ≡ ok c.subscriber)
joined (ok p) (ok s) c e =
    let same : record { publisher = p; subscriber = s } ≡ c = cc (e) in
    (ap (λ (d : Connection). ok d.publisher) same, ap (λ (d : Connection). ok d.subscriber) same)
joined (ok p) (err x) c e = absurd (cc (e))
joined (err x) r2 c e = absurd (cc (e))

parse_parts-IsBytes :
    (parts : List Text) (c : Connection)
    → parse_parts parts ≡ ok c
    → IsBytes c.publisher × IsBytes c.subscriber
parse_parts-IsBytes [] c e = absurd (cc (e))
parse_parts-IsBytes (p ∷ []) c e = absurd (cc (e))
parse_parts-IsBytes (p ∷ s ∷ []) c e =
    let (f, g) = joined (parse_name p) (parse_name s) c e in
    (parse_name-IsBytes p c.publisher f, parse_name-IsBytes s c.subscriber g)
parse_parts-IsBytes (p ∷ s ∷ t ∷ more) c e = absurd (cc (e))

edge_connections-AllBytes : (es : List Edge) → AllBytes (edge_connections es)
unfolding edge_connections connection_from_str
edge_connections-AllBytes [] = tt
edge_connections-AllBytes (e ∷ es) =
    elim (Result-cases (connection_from_str (e.parent ++ b'-' ∷ e.child))) [
      | inl (c, read) ↦
          rw (read, edge_connections)
            (let (p, s) = parse_parts-IsBytes (split b'-' (e.parent ++ b'-' ∷ e.child)) c read in
              (p, s, edge_connections-AllBytes es))
      | inr (x, failed) ↦ rw (failed, edge_connections) (edge_connections-AllBytes es)
    ]

and_false : (b : Bool) → (b && false) ≡ false
and_false b = ground arith

module _ (topic me : GdpName) (topic_bytes : IsBytes topic) where
  -- Of four-byte names, exactly those connections are open that involve the node and are listed.
  pub record Follows (m : Manager) (edges : List Connection) : Type 0 where
    pub in_sync : InSync topic me topic_bytes m
    pub opened :
        (c : Connection)
        → IsBytes c.publisher
        → IsBytes c.subscriber
        → has_key m.connections (connection_id topic c)
          ≡ (is_node_involved c me && contains (map show_connection edges) (show_connection c))

  pub fresh-Follows : Follows fresh []
  unfolding contains lookup
  fresh-Follows = record {
    in_sync = record { made = λ s e. absurd (cc); tracks = λ c p q. refl };
    opened = λ c p q. ground (arith);
  }

  module _ (env : Env) (codec : Codec RoutingState) (url : Text) (order : List Text → List Text)
      (is_publisher is_proxy : Bool) (waits : env.World → env.World)
      (same : (xs : List Text) (s : Text) → contains (order xs) s ≡ contains xs s) where
    pub on_read-Follows :
        (m : Manager) (edges all_edges : List Connection)
        → AllBytes all_edges
        → Follows m edges
        → Follows
            (on_read env codec url topic me order is_publisher is_proxy waits m (ok all_edges))
            all_edges
    unfolding on_read
    on_read-Follows m edges all_edges bytes h =
        let (in_sync, opened) =
          reconcile-InSync topic me topic_bytes order is_publisher is_proxy all_edges m same bytes
            h.in_sync in
        record { in_sync = in_sync; opened = opened }

    manage-Follows :
        (changes : ℕ) (m : Manager) (edges : List Connection) (w : env.World)
        → Follows m edges
        → Follows (manage env codec url topic me order is_publisher is_proxy waits changes m w).0 (
            latest edges (reads env codec url topic me order is_publisher is_proxy waits changes w))
    unfolding manage reads current_connections
    manage-Follows zero m edges w h = h
    manage-Follows (suc changes) m edges w h = manage-Follows changes _ _ _ (
        on_read-Follows m edges _
          (edge_connections-AllBytes
            (parse_state codec (read_value env codec url topic (waits w)).0).edges)
          h)

    -- Whatever other tasks and nodes do meanwhile, and in whichever order the sets are walked, the
    -- manager refines its specification: after the changes that its watcher has sent, less one that
    -- was there at the start, those connections of four-byte names are open that involve the node and
    -- are among the edges that were read last, or none before the first read.
    pub manage_topic_connections-Follows :
        (early : Bool) (watcher : Watcher) (w : env.World)
        → Follows
            (manage_topic_connections env codec url topic me order is_publisher is_proxy waits early
              watcher w).0
            (latest [] (
              reads env codec url topic me order is_publisher is_proxy waits
                (left_after_try_recv early watcher.sent)
                w))
    unfolding manage_topic_connections
    manage_topic_connections-Follows early watcher w =
        manage-Follows (left_after_try_recv early watcher.sent) fresh [] w fresh-Follows

    no_edges : edge_connections (parse_state codec []).edges ≡ []
    unfolding edge_connections parse_state
    no_edges = refl

    no_value :
        (r : Result env.RedisError (Option Text)) (x : env.RedisError)
        → r ≡ err x
        → elim r as (λ y. Text) [ ok v ↦ or_default v | err e ↦ [] ] ≡ []
    no_value r x e =
        ap
          (λ (q : Result env.RedisError (Option Text)). elim q as (λ y. Text) [
            | ok v ↦ or_default v
            | err z ↦ []
          ])
          e

    read_value-failed :
        (w : env.World) (x : env.RedisError)
        → (get_string env url (routing_key topic) w).0 ≡ err x
        → (read_value env codec url topic w).0 ≡ []
    unfolding read_value
    read_value-failed w x e = no_value (get_string env url (routing_key topic) w).0 x e

    listed : Connection → List Connection → Bool
    listed c cs = is_node_involved c me && contains (map show_connection cs) (show_connection c)

    unlisted : (c : Connection) → listed c [] ≡ false
    unfolding contains listed
    unlisted c = and_false (is_node_involved c me)

    -- A read of the routing state that fails closes each connection of four-byte names, whatever was
    -- open before: the failure is taken for a state without edges.
    pub manage-failed_read :
        (m : Manager) (edges : List Connection) (w : env.World) (x : env.RedisError)
        (c : Connection)
        → Follows m edges
        → (get_string env url (routing_key topic) (waits w)).0 ≡ err x
        → IsBytes c.publisher
        → IsBytes c.subscriber
        → has_key
            (manage env codec url topic me order is_publisher is_proxy waits 1 m w).0.connections
            (connection_id topic c)
          ≡ false
    unfolding reads current_connections listed
    manage-failed_read m edges w x c h failed p q =
        (manage-Follows 1 m edges w h).opened c p q
        ∙ (ap (λ v. listed c (edge_connections (parse_state codec v).edges))
              (read_value-failed (waits w) x failed)
            ∙ (ap (listed c) no_edges ∙ unlisted c))
