-- ===== src/WebRtc/Channel.antt =====
-- core/src/network/webrtc.rs, `webrtc_reader_and_writer`: one event is one branch of its `select!`. The
-- JSON texts are a parameter, and so is the stream: whether it takes a write after those before.
pub mod Duplex
use fogros2_sgc.Base.{ℕ, ◌+◌, Bool, true, false, List, [], ◌∷◌, ◌++◌, if◌then◌else◌, length}
use fogros2_sgc.Text.{Text}
use fogros2_sgc.Packet.{PacketParser, GdpPacket, Json, feed, frame, to_ros, new}
use fogros2_sgc.Name.{GdpName}

pub record Channel : Type 0 where
  pub parser : PacketParser
  pub outbound_closed : Bool
  pub received : ℕ
  pub sent : ℕ
  -- what was handed to ROS, and what was written
  pub to_ros_log : List GdpPacket
  pub writes : List Text
  pub running : Bool

abbrev pub opened : Channel
opened = record {
  parser = new;
  outbound_closed = false;
  received = 0;
  sent = 0;
  to_ros_log = [];
  writes = [];
  running = true;
}

-- A read of no bytes is the end of the stream; `ends` is a read that fails, `closes` the end of the packets from ROS.
pub data Branch : Type 0 where
  reads : Text → Branch
  packet : GdpPacket → Branch
  ends closes shuts : Branch

module _ (json : Json) (accepts : List Text → Text → Bool) (thread_name : GdpName) where
  unfoldable pub read_piece : Text → Channel → Channel
  unfolding feed to_ros
  read_piece piece c =
      let (parser, found) = feed json c.parser piece in
      let packets = to_ros thread_name found in
      record c {
        parser = parser;
        received = c.received + length packets;
        to_ros_log = c.to_ros_log ++ packets;
      }

  unfoldable pub write_packet : GdpPacket → Channel → Channel
  unfolding frame
  write_packet k c =
      if accepts c.writes (frame json k)
      then record c { writes = c.writes ++ frame json k ∷ []; sent = c.sent + 1 }
      else record c { running = false }

  unfoldable pub branch : Branch → Channel → Channel
  unfolding read_piece write_packet
  branch (reads []) c = record c { running = false }
  branch (reads (b ∷ piece)) c = read_piece (b ∷ piece) c
  branch (packet k) c = if c.outbound_closed then c else write_packet k c
  branch ends c = record c { running = false }
  branch closes c = record c { outbound_closed = true }
  branch shuts c = record c { running = false }

  -- The loop: after a `break` nothing more happens.
  unfoldable pub select_loop : List Branch → Channel → Channel
  unfolding branch
  select_loop [] c = c
  select_loop (b ∷ bs) c = elim c.running [ true ↦ select_loop bs (branch b c) | false ↦ c ]
