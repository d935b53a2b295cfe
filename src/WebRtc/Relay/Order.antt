-- ===== src/WebRtc/Relay/Order.antt =====
-- What the writer sends: the messages in their order, once a peer is known and a message wakes it.
use fogros2_sgc.Base.{
  ◌≡◌, refl, sym, ap, subst, ◌∙◌, inl, inr, true, Option, none, some, List, [], ◌∷◌, ◌++◌, map,
  if◌then◌else◌, Bool-cases, Option-cases,
}
use fogros2_sgc.Text.{Text}
use fogros2_sgc.WebRtc.Relay.{
  Wire, Relay, Event, Incoming, at_start, flush, write_to, write_turn, read_turn, turn_of,
  run_relay,
}
use mathlib.Core.List.{map-append, append-nil, append_assoc}

-- Each message is encoded for any peer, and the socket takes each text.
pub record IsUp (wire : Wire) : Type 0 where
  pub text : Text → wire.Message → Text
  pub encodes : (peer : Text) (m : wire.Message) → wire.encode peer m ≡ some (text peer m)
  pub takes_all : (before : List Text) (s : Text) → wire.takes before s ≡ true

module _ (wire : Wire) (up : IsUp wire) where
  open wire use {Message, Frame}

  abbrev texts : Text → List Message → List Text
  texts peer = map (up.text peer)

  flush-IsUp :
      (peer : Text) (ms : List Message) (r : Relay wire)
      → flush wire peer ms r ≡ record r { pending = []; written = r.written ++ texts peer ms }
  unfolding flush
  flush-IsUp peer [] r = rw (append-nil r.written) refl
  flush-IsUp peer (m ∷ ms) r =
      rw (up.encodes peer m, flush)
        (rw (up.takes_all r.written (up.text peer m), flush)
          (flush-IsUp peer ms (record r { written = r.written ++ up.text peer m ∷ [] })
            ∙ rw (append_assoc r.written (up.text peer m ∷ []) (texts peer ms)) refl))

  -- The messages that are to be sent, and no shutdown.
  abbrev pub outbounds : List (Event wire) → List Message
  outbounds [] = []
  outbounds (Event.outbound m ∷ es) = m ∷ outbounds es
  outbounds (Event.incoming i ∷ es) = outbounds es
  outbounds (Event.shutdown ∷ es) = outbounds es

  abbrev pub NoShutdown : List (Event wire) → Type 0
  NoShutdown [] = Unit {0}
  NoShutdown (Event.shutdown ∷ es) = ⊥
  NoShutdown (_ ∷ es) = NoShutdown es

  abbrev pub encoded : List (Text × Message) → List Text
  encoded = map (λ p. up.text p.0 p.1)

  -- What was written is the encoding of the first messages, each for some peer, and the others wait.
  pub record InOrder (ms : List Message) (r : Relay wire) : Type 0 where
    pub sent : List (Text × Message)
    pub written_all : r.written ≡ encoded sent
    pub in_order : map (λ (p : Text × Message). p.1) sent ++ r.pending ≡ ms
    pub alive : r.writing ≡ true

  abbrev for_peer : Text → List Message → List (Text × Message)
  for_peer peer = map (λ m. (peer, m))

  encoded-for_peer : (peer : Text) (ms : List Message) → encoded (for_peer peer ms) ≡ texts peer ms
  encoded-for_peer peer [] = refl
  encoded-for_peer peer (m ∷ ms) = ap (◌∷◌ (up.text peer m)) (encoded-for_peer peer ms)

  messages-for_peer :
      (peer : Text) (ms : List Message) → map (λ (p : Text × Message). p.1) (for_peer peer ms) ≡ ms
  messages-for_peer peer [] = refl
  messages-for_peer peer (m ∷ ms) = ap (◌∷◌ m) (messages-for_peer peer ms)

  write_turn-known :
      (m : Message) (r : Relay wire) (peer : Text)
      → r.other_peer ≡ some peer
      → write_turn wire m r
        ≡ record r { pending = []; written = r.written ++ texts peer (r.pending ++ m ∷ []) }
  unfolding write_turn
  write_turn-known m r peer e =
      unfold write_to in ap (λ o. write_to wire o m r) e ∙ flush-IsUp peer (r.pending ++ m ∷ []) r

  write_turn-unknown :
      (m : Message) (r : Relay wire)
      → r.other_peer ≡ none
      → write_turn wire m r ≡ record r { pending = r.pending ++ m ∷ [] }
  unfolding write_turn write_to
  write_turn-unknown m r e = ap (λ o. write_to wire o m r) e

  InOrder-write :
      (ms : List Message) (m : Message) (r : Relay wire)
      → InOrder ms r
      → InOrder (ms ++ m ∷ []) (write_turn wire m r)
  InOrder-write ms m r h = elim (Option-cases r.other_peer) [
    | inl e ↦ subst (InOrder (ms ++ m ∷ [])) (sym (waits e)) (record {
      sent = h.sent;
      written_all = h.written_all;
      in_order =
          sym (append_assoc (map (λ (p : Text × Message). p.1) h.sent) r.pending (m ∷ []))
          ∙ ap (λ xs. xs ++ m ∷ []) h.in_order;
      alive = h.alive;
    })
    | inr (peer, e) ↦
        let now = r.pending ++ m ∷ [] in
        subst (InOrder (ms ++ m ∷ [])) (sym (write_turn-known m r peer e)) (record {
          sent = h.sent ++ for_peer peer now;
          written_all =
              rw
                (
                  map-append (λ (p : Text × Message). up.text p.0 p.1) h.sent (for_peer peer now),
                  encoded-for_peer peer now,
                )
                (ap (λ t. t ++ texts peer now) h.written_all);
          in_order =
              append-nil _
              ∙ map-append (λ (p : Text × Message). p.1) h.sent (for_peer peer now)
              ∙ ap (λ t. map (λ (p : Text × Message). p.1) h.sent ++ t) (messages-for_peer peer now)
              ∙ sym (append_assoc (map (λ (p : Text × Message). p.1) h.sent) r.pending (m ∷ []))
              ∙ ap (λ xs. xs ++ m ∷ []) h.in_order;
          alive = h.alive;
        })
  ]
    where
      waits : r.other_peer ≡ none → write_turn wire m r ≡ record r { pending = r.pending ++ m ∷ [] }
      waits e = write_turn-unknown m r e

  -- The reader touches neither what waits nor what was written.
  read_turn-writer :
      (i : Incoming Frame) (r : Relay wire)
      → ((read_turn wire i r).pending ≡ r.pending)
        × ((read_turn wire i r).written ≡ r.written)
        × ((read_turn wire i r).writing ≡ r.writing)
  unfolding read_turn
  read_turn-writer (Incoming.frame f) r = elim (Option-cases (wire.decode f)) [
    | inl e ↦ rw (e, read_turn) (refl, refl, refl)
    | inr (x, e) ↦ rw (e, read_turn) (refl, refl, refl)
  ]
  read_turn-writer Incoming.close r = (refl, refl, refl)
  read_turn-writer Incoming.other r = (refl, refl, refl)
  read_turn-writer Incoming.ended r = (refl, refl, refl)

  incoming-writer :
      (i : Incoming Frame) (r : Relay wire)
      → ((turn_of wire (Event.incoming i) r).pending ≡ r.pending)
        × ((turn_of wire (Event.incoming i) r).written ≡ r.written)
        × ((turn_of wire (Event.incoming i) r).writing ≡ r.writing)
  unfolding turn_of
  incoming-writer i r = elim (Bool-cases r.reading) [
    | inl e ↦
        subst Same (ap (λ b. if b then read_turn wire i r else r) (sym e)) (read_turn-writer i r)
    | inr e ↦ subst Same (ap (λ b. if b then read_turn wire i r else r) (sym e)) (refl, refl, refl)
  ]
    where
      Same : Relay wire → Type 0
      Same r' = (r'.pending ≡ r.pending) × (r'.written ≡ r.written) × (r'.writing ≡ r.writing)

  InOrder-incoming :
      (ms : List Message) (i : Incoming Frame) (r : Relay wire)
      → InOrder ms r
      → InOrder ms (turn_of wire (Event.incoming i) r)
  InOrder-incoming ms i r h =
      let (p, w, a) = incoming-writer i r in
      record {
        sent = h.sent;
        written_all = w ∙ h.written_all;
        in_order = rw p h.in_order;
        alive = a ∙ h.alive;
      }

  InOrder-outbound :
      (ms : List Message) (m : Message) (r : Relay wire)
      → InOrder ms r
      → InOrder (ms ++ m ∷ []) (turn_of wire (Event.outbound m) r)
  unfolding turn_of
  InOrder-outbound ms m r h =
      subst (InOrder (ms ++ m ∷ [])) (ap (λ b. if b then write_turn wire m r else r) (sym h.alive))
        (InOrder-write ms m r h)

  run_relay-InOrder :
      (es : List (Event wire)) (ms : List Message) (r : Relay wire)
      → NoShutdown es
      → InOrder ms r
      → InOrder (ms ++ outbounds es) (run_relay wire es r)
  unfolding run_relay
  run_relay-InOrder [] ms r n h = subst (λ xs. InOrder xs r) (sym (append-nil ms)) h
  run_relay-InOrder (Event.outbound m ∷ es) ms r n h =
      subst (λ xs. InOrder xs (run_relay wire es (turn_of wire (Event.outbound m) r)))
        (append_assoc ms (m ∷ []) (outbounds es))
        (run_relay-InOrder es (ms ++ m ∷ []) (turn_of wire (Event.outbound m) r) n
          (InOrder-outbound ms m r h))
  run_relay-InOrder (Event.incoming i ∷ es) ms r n h =
      run_relay-InOrder es ms (turn_of wire (Event.incoming i) r) n (InOrder-incoming ms i r h)
  run_relay-InOrder (Event.shutdown ∷ es) ms r n h = absurd n

  -- Until a shutdown, with a socket that takes every text and messages that can be encoded: in whatever
  -- order the turns of the two tasks come, what was written is the encoding of the first outbound
  -- messages, in their order and each once, and the others wait in their order.
  pub relay-InOrder :
      (peer : Option Text) (es : List (Event wire))
      → NoShutdown es
      → InOrder (outbounds es) (run_relay wire es (at_start wire peer))
  relay-InOrder peer es n =
      run_relay-InOrder es [] (at_start wire peer) n
        (record { sent = []; written_all = refl; in_order = refl; alive = refl })

  abbrev pub all_outbound : List Message → List (Event wire)
  all_outbound = map Event.outbound

  abbrev pub all_incoming : List Frame → List (Event wire)
  all_incoming = map (λ f. Event.incoming (Incoming.frame f))

  unsent :
      (ms : List Message) (r : Relay wire)
      → r.other_peer ≡ none
      → r.writing ≡ true
      → run_relay wire (all_outbound ms) r ≡ record r { pending = r.pending ++ ms }
  unfolding run_relay turn_of
  unsent [] r e a = ap (λ xs. record r { pending = xs }) (sym (append-nil r.pending))
  unsent (m ∷ ms) r e a =
      ap (run_relay wire (all_outbound ms))
        (ap (λ b. if b then write_turn wire m r else r) a ∙ write_turn-unknown m r e)
      ∙ unsent ms (record r { pending = r.pending ++ m ∷ [] }) e a
      ∙ ap (λ xs. record r { pending = xs }) (append_assoc r.pending (m ∷ []) ms)

  read_only :
      (fs : List Frame) (r : Relay wire)
      → ((run_relay wire (all_incoming fs) r).pending ≡ r.pending)
        × ((run_relay wire (all_incoming fs) r).written ≡ r.written)
        × ((run_relay wire (all_incoming fs) r).writing ≡ r.writing)
  unfolding run_relay
  read_only [] r = (refl, refl, refl)
  read_only (f ∷ fs) r =
      let (p, w, a) = incoming-writer (Incoming.frame f) r in
      let (p', w', a') = read_only fs (turn_of wire (Event.incoming (Incoming.frame f)) r) in
      (p' ∙ p, w' ∙ w, a' ∙ a)

  -- A responder, after messages to send and then frames.
  abbrev pub messages_then_frames : List Message → List Frame → Relay wire
  messages_then_frames ms fs =
      run_relay wire (all_incoming fs) (run_relay wire (all_outbound ms) (at_start wire none))

  -- With a socket that takes every text and messages that can be encoded, a responder's messages wait
  -- until the next one: those that came before any frame are not sent when the frames make the peer
  -- known, but all of them, in order, when one more message is to be sent.
  pub pending_waits :
      (ms : List Message) (fs : List Frame) (m : Message) (peer : Text)
      → (messages_then_frames ms fs).other_peer ≡ some peer
      → let r = messages_then_frames ms fs in
        (r.pending ≡ ms)
        × (r.written ≡ [])
        × ((turn_of wire (Event.outbound m) r).pending ≡ [])
        × ((turn_of wire (Event.outbound m) r).written ≡ map (up.text peer) (ms ++ m ∷ []))
  unfolding turn_of
  pending_waits ms fs m peer known =
      let s = run_relay wire (all_outbound ms) (at_start wire none) in
      let waiting = unsent ms (at_start wire none) refl refl in
      let r = run_relay wire (all_incoming fs) s in
      let (p, w, a) = read_only fs s in
      let alive : r.writing ≡ true = a ∙ ap (λ (x : Relay wire). x.writing) waiting in
      let kept : r.pending ≡ ms = p ∙ ap (λ (x : Relay wire). x.pending) waiting in
      let none_sent : r.written ≡ [] = w ∙ ap (λ (x : Relay wire). x.written) waiting in
      let next =
        ap (λ b. if b then write_turn wire m r else r) alive ∙ write_turn-known m r peer known in
      (
        kept,
        none_sent,
        ap (λ (x : Relay wire). x.pending) next,
        ap (λ (x : Relay wire). x.written) next ∙ cc (kept, none_sent),
      )
