-- ===== src/Topics/SignalIds.antt =====
-- The identifiers that the two ends of a connection use at the signaling server.
use fogros2_sgc.Base.{◌≡◌, refl, inl, inr, true, false, none, some, ◌∷◌, ◌++◌, Bool-cases}
use fogros2_sgc.Topics.{generate_signal_ids}
use fogros2_sgc.Signaling.{parse_client_id}
use fogros2_sgc.Name.RoundTrip.{show_name-Avoids, name_eq_iff}
use fogros2_sgc.Name.{Connection, GdpName, IsBytes, name_eq, show_name}
use fogros2_sgc.Text.Parts.{split-Avoids, split-append}

three-parts :
    (a b c : GdpName)
    → IsBytes a
    → IsBytes b
    → IsBytes c
    → parse_client_id (show_name a ++ b'-' ∷ (show_name b ++ b'-' ∷ show_name c))
      ≡ some (show_name a, show_name b)
unfolding parse_client_id
three-parts a b c ha hb hc =
    rw (split-append b'-' (show_name a) (show_name b ++ b'-' ∷ show_name c) (show_name-Avoids a ha))
      (rw (split-append b'-' (show_name b) (show_name c) (show_name-Avoids b hb))
        (rw (split-Avoids b'-' (show_name c) (show_name-Avoids c hc)) refl))

-- For a connection of two different nodes, the subscriber dials the identifier under which the
-- publisher is known, the publisher dials none, and the signaling server reads from each identifier
-- the topic and the node that uses it. The names are of four bytes.
pub signal_ids_meet :
    (topic : GdpName) (c : Connection)
    → IsBytes topic
    → IsBytes c.publisher
    → IsBytes c.subscriber
    → ¬ (c.publisher ≡ c.subscriber)
    → let at_publisher = generate_signal_ids topic c c.publisher in
      let at_subscriber = generate_signal_ids topic c c.subscriber in
      (at_publisher.1 ≡ none)
      × (at_subscriber.1 ≡ some at_publisher.0)
      × (parse_client_id at_publisher.0 ≡ some (show_name topic, show_name c.publisher))
      × (parse_client_id at_subscriber.0 ≡ some (show_name topic, show_name c.subscriber))
unfolding generate_signal_ids
signal_ids_meet topic c ht hp hs ne =
    let own : name_eq c.publisher c.publisher ≡ true =
      (name_eq_iff c.publisher c.publisher).1 refl in
    let other : name_eq c.publisher c.subscriber ≡ false =
      (elim (Bool-cases (name_eq c.publisher c.subscriber)) [
        | inl e ↦ absurd (ne ((name_eq_iff c.publisher c.subscriber).0 e))
        | inr e ↦ e
      ]) in
    rw (own, other)
      (
        refl,
        refl,
        three-parts topic c.publisher c.subscriber ht hp hs,
        three-parts topic c.subscriber c.publisher ht hs hp,
      )
