-- ===== src/WebRtc/Relay.antt =====
-- core/src/network/webrtc.rs, the two tasks of `register_webrtc_stream` that carry signaling messages
-- between the peer connection and the WebSocket, and share the name of the other peer. One event is one
-- turn of one of the loops. The texts of serde are a parameter, and so is the socket: whether it takes
-- a text after those that were written.
pub mod Order
use fogros2_sgc.Base.{
  ◌+◌, Bool, true, false, Option, none, some, List, [], ◌∷◌, ◌++◌, if◌then◌else◌,
}
use fogros2_sgc.Text.{Text}

pub record Wire : Type 1 where
  pub Message : Type 0
  pub Frame : Type 0
  -- `serde_json::to_string(&SignalingMessage { payload, id }).ok()`, and the reading of a frame
  pub encode : Text → Message → Option Text
  pub decode : Frame → Option (Text × Message)
  pub takes : List Text → Text → Bool

-- What `ws_read.next()` gives. `ended` is an error or the end of the stream.
pub data Incoming (F : Type 0) : Type 0 where
  frame : F → Incoming F
  close other ended : Incoming F

module _ (wire : Wire) where
  open wire use {Message, Frame, encode, decode, takes}

  pub record Relay : Type 0 where
    pub other_peer : Option Text
    pub pending : List Message
    pub writing : Bool
    pub reading : Bool
    -- what was written to the socket, and what was handed to the peer connection
    pub written : List Text
    pub handed : List Message

  -- `Arc::new(Mutex::new(peer_to_dial.clone()))`, and both tasks at their start.
  abbrev pub at_start : Option Text → Relay
  at_start peer = record {
    other_peer = peer;
    pending = [];
    writing = true;
    reading = true;
    written = [];
    handed = [];
  }

  -- The inner loop of the writer: a message that cannot be encoded is dropped, and a send that fails
  -- ends the task.
  unfoldable pub flush : Text → List Message → Relay → Relay
  flush peer [] r = record r { pending = [] }
  flush peer (m ∷ ms) r = elim (encode peer m) [
    | none ↦ flush peer ms r
    | some s ↦ elim (takes r.written s) [
      | true ↦ flush peer ms (record r { written = r.written ++ s ∷ [] })
      | false ↦ record r { pending = ms; writing = false }
    ]
  ]

  pub data Event : Type 0 where
    outbound : Message → Event
    incoming : Incoming Frame → Event
    shutdown : Event

  -- The body of the writer's loop, on the peer that is known.
  unfoldable pub write_to : Option Text → Message → Relay → Relay
  unfolding flush
  write_to none m r = record r { pending = r.pending ++ m ∷ [] }
  write_to (some peer) m r = flush peer (r.pending ++ m ∷ []) r

  unfoldable pub write_turn : Message → Relay → Relay
  unfolding write_to
  write_turn m r = write_to r.other_peer m r

  unfoldable pub read_turn : Incoming Frame → Relay → Relay
  read_turn (frame f) r = elim (decode f) [
    | none ↦ r
    | some (id, payload) ↦ record r { other_peer = some id; handed = r.handed ++ payload ∷ [] }
  ]
  read_turn close r = record r { reading = false }
  read_turn other r = r
  read_turn ended r = record r { reading = false }

  unfoldable pub turn_of : Event → Relay → Relay
  unfolding write_turn read_turn
  turn_of (outbound m) r = if r.writing then write_turn m r else r
  turn_of (incoming i) r = if r.reading then read_turn i r else r
  turn_of shutdown r = record r { writing = false; reading = false }

  unfoldable pub run_relay : List Event → Relay → Relay
  unfolding turn_of
  run_relay [] r = r
  run_relay (e ∷ es) r = run_relay es (turn_of e r)
