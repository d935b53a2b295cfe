-- ===== src/Tests/WebRtc.antt =====
-- The attempts to connect, and the relay of the signaling messages.
use fogros2_sgc.Base.{
  ℕ, ◌+◌, ◌≡◌, refl, true, none, some, List, [], ◌∷◌, ◌++◌, map, if◌then◌else◌, nat_beq,
}
use fogros2_sgc.Text.{Text, ◌==◌, codes}
use fogros2_sgc.WebRtc.{Network, establish}
use fogros2_sgc.WebRtc.Guard.{LeavesId, establish-is_ok, is_ok}
use fogros2_sgc.WebRtc.Relay.{Wire, Event, Incoming, at_start, run_relay, turn_of}
use fogros2_sgc.WebRtc.Relay.Order.{
  IsUp, InOrder, outbounds, relay-InOrder, pending_waits, messages_then_frames,
}
use fogros2_sgc.Base.Result.{err, ok}
use fogros2_sgc.Text.Sets.{contains}

-- The signaling server refuses the first connection.
abbrev second_try : Network
second_try = record {
  World = ℕ;
  Peer = Unit {0};
  Stream = Unit {0};
  fetch = λ w. ok (record {
    group_secret = [];
    signaling_server = codes "ws://s";
    routing_server = [];
    topics = [];
  });
  new_peer = λ w. (ok tt, w);
  connect_async = λ url s. (if nat_beq s.1 0 then err (codes "refused") else ok tt, (s.0, s.1 + 1));
  dial = λ peer s. (ok tt, s);
  accept = λ peer s. (ok tt, s);
  sleep_ms = λ ms s. s;
}

second_try-LeavesId : LeavesId second_try (codes "a")
second_try-LeavesId = record {
  on_connect = λ url s. refl;
  on_dial = λ peer s. refl;
  on_accept = λ peer s. refl;
  on_sleep = λ ms s. refl;
}

establish-is_ok_example :
    contains
      (establish second_try (codes "a") (some (codes "b")) (codes "c" ∷ [], 0)).1.0
      (codes "a")
    ≡ is_ok (establish second_try (codes "a") (some (codes "b")) (codes "c" ∷ [], 0)).0
unfolding contains ◌==◌
establish-is_ok_example =
    establish-is_ok second_try (codes "a") second_try-LeavesId (some (codes "b"))
      (codes "c" ∷ [], 0) refl

connects_twice :
    establish second_try (codes "a") none (codes "c" ∷ [], 0)
    ≡ (ok tt, (codes "c" ∷ codes "a" ∷ [], 2))
unfolding establish contains ◌==◌
connects_twice = refl

-- A frame is a sender and a message, a text is a receiver and a message.
abbrev plain_wire : Wire
plain_wire = record {
  Message = Text;
  Frame = Text × Text;
  encode = λ peer m. some (peer ++ m);
  decode = λ f. some f;
  takes = λ before s. true;
}

plain_wire-IsUp : IsUp plain_wire
plain_wire-IsUp = record {
  text = λ peer m. peer ++ m;
  encodes = λ peer m. refl;
  takes_all = λ before s. refl;
}

abbrev some_turns : List (Event plain_wire)
some_turns =
    Event.outbound (codes "one")
    ∷ Event.incoming (Incoming.frame (codes "p", codes "answer"))
    ∷ Event.outbound (codes "two")
    ∷ []

relay-InOrder_example :
    InOrder plain_wire plain_wire-IsUp
      (outbounds plain_wire plain_wire-IsUp some_turns)
      (run_relay plain_wire some_turns (at_start plain_wire none))
relay-InOrder_example = relay-InOrder plain_wire plain_wire-IsUp none some_turns tt

pending_waits_example :
    let r =
      messages_then_frames plain_wire plain_wire-IsUp
        (codes "one" ∷ [])
        ((codes "p", codes "answer") ∷ []) in
    (r.pending ≡ codes "one" ∷ [])
    × (r.written ≡ [])
    × ((turn_of plain_wire (Event.outbound (codes "two")) r).pending ≡ [])
    × ((turn_of plain_wire (Event.outbound (codes "two")) r).written
        ≡ map (λ m. codes "p" ++ m) (codes "one" ∷ codes "two" ∷ []))
unfolding run_relay plain_wire-IsUp
pending_waits_example =
    pending_waits plain_wire plain_wire-IsUp (codes "one" ∷ []) ((codes "p", codes "answer") ∷ [])
      (codes "two") (codes "p") refl
