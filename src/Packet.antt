-- ===== src/Packet.antt =====
-- core/src/structs.rs, `GDPPacket` and its header, core/src/pipeline.rs, and the framing of
-- core/src/network/webrtc.rs: the bytes that the writer sends for a packet, and `PacketParser`,
-- which finds the packets again in the pieces that arrive. The JSON texts of serde are parameters.
pub mod Cut
pub mod Feed
pub mod RoundTrip
pub mod Forward
use fogros2_sgc.Base.{
  ℕ, zero, suc, ◌+◌, ◌*◌, Bool, true, false, Option, none, some, List, [], ◌∷◌, ◌++◌, if◌then◌else◌,
  ltb, leb, nat_beq, length, take, drop,
}
use fogros2_sgc.Text.{Text}
use fogros2_sgc.Name.{GdpName}
use fogros2_sgc.Text.Parts.{from_utf8, is_utf8}

pub data GdpAction : Type 0 where
  noop forward advertise advertise_response rib_get rib_reply nack control : GdpAction

pub data GdpNameRecordType : Type 0 where
  empty info query update merge delete : GdpNameRecordType

pub record GdpNameRecord : Type 0 where
  pub record_type : GdpNameRecordType
  pub gdpname : GdpName
  pub source_gdpname : GdpName
  pub webrtc_offer : Option Text
  pub ip_address : Option Text
  pub ros : Option (Text × Text)
  pub indirect : Option GdpName

pub record GdpPacket : Type 0 where
  pub action : GdpAction
  pub gdpname : GdpName
  pub source : GdpName
  pub payload : Option Text
  pub name_record : Option GdpNameRecord

pub record GdpHeader : Type 0 where
  pub action : GdpAction
  pub destination : GdpName
  pub length : ℕ

-- `serde_json::to_vec(header).ok()`, `serde_json::from_str::<GDPHeaderInTransit>(s).ok()` and
-- `serde_json::to_string(record).ok()`; `to_vec` of a record gives the same bytes.
pub record Json : Type 0 where
  pub write_header : GdpHeader → Option Text
  pub read_header : Text → Option GdpHeader
  pub write_record : GdpNameRecord → Option Text

unfoldable pub construct_gdp_forward_from_bytes : GdpName → GdpName → Text → GdpPacket
construct_gdp_forward_from_bytes destination source buffer = record {
  action = GdpAction.forward;
  gdpname = destination;
  source = source;
  payload = some buffer;
  name_record = none;
}

abbrev pub or_empty : Option Text → Text
or_empty none = []
or_empty (some s) = s

abbrev pub is_forward : GdpAction → Bool
is_forward GdpAction.forward = true
is_forward _ = false

module _ (json : Json) where
  -- The bytes of the record, if there is one that can be written.
  abbrev pub record_bytes : GdpPacket → Text
  record_bytes p = elim p.name_record [ none ↦ [] | some r ↦ or_empty (json.write_record r) ]

  unfoldable pub get_header : GdpPacket → GdpHeader
  get_header p = record {
    action = p.action;
    destination = p.gdpname;
    length = length (or_empty p.payload) + length (record_bytes p);
  }

  -- What `webrtc_reader_and_writer` writes for a packet.
  unfoldable pub frame : GdpPacket → Text
  unfolding get_header
  frame p =
      or_empty (json.write_header (get_header p)) ++ (0 ∷ (or_empty p.payload ++ record_bytes p))

pub record PacketParser : Type 0 where
  pub buffer : Text
  pub pending_header : Option GdpHeader
  pub parse_retries : ℕ

abbrev pub new : PacketParser
new = record { buffer = []; pending_header = none; parse_retries = 0 }

abbrev pub max_parse_retries : ℕ
max_parse_retries = 5

-- `buffer.iter().position(|&b| b == 0)`, with the bytes before and after the null byte.
unfoldable pub cut_at_null : Text → Option (Text × Text)
cut_at_null [] = none
cut_at_null (b ∷ bs) =
    let rest = cut_at_null bs in
    if nat_beq b 0
    then some ([], bs)
    else elim rest [ none ↦ none | some (before, after) ↦ some (b ∷ before, after) ]

abbrev pub Packets : Type 0
Packets = List (GdpHeader × Text)

-- One turn of the loop: the parser, the packets completed, and whether the loop goes on.
pub data Turn : Type 0 where
  goes_on : PacketParser → Packets → Turn
  breaks : PacketParser → Turn

module _ (json : Json) where
  -- With a header pending: the payload, once it is there.
  unfoldable pub take_payload : PacketParser → GdpHeader → Turn
  take_payload p header =
      if leb header.length (length p.buffer)
      then goes_on
          (record {
            buffer = drop header.length p.buffer;
            pending_header = none;
            parse_retries = 0;
          })
          ((header, take header.length p.buffer) ∷ [])
      else breaks p

  -- A header that does not parse is dropped and counted; the sixth in a row empties the buffer.
  abbrev pub count_failure : Text → ℕ → PacketParser
  count_failure rest retries =
      if ltb max_parse_retries (retries + 1)
      then record { buffer = []; pending_header = none; parse_retries = 0 }
      else record { buffer = rest; pending_header = none; parse_retries = retries + 1 }

  -- `from_utf8(bytes).ok().and_then(|s| serde_json::from_str(s).ok())`
  unfoldable pub parse_header : Text → Option GdpHeader
  unfolding is_utf8
  parse_header bytes = elim (from_utf8 bytes) [ none ↦ none | some s ↦ json.read_header s ]

  unfoldable pub take_header : PacketParser → Turn
  unfolding cut_at_null parse_header
  take_header p = elim (cut_at_null p.buffer) [
    | none ↦ breaks p
    | some (bytes, rest) ↦ elim (parse_header bytes) [
      | some header ↦
          goes_on (record { buffer = rest; pending_header = some header; parse_retries = 0 }) []
      | none ↦ breaks (count_failure rest p.parse_retries)
    ]
  ]

  unfoldable pub turn : PacketParser → Turn
  unfolding take_payload take_header
  turn p = elim p.pending_header [ some header ↦ take_payload p header | none ↦ take_header p ]

  -- The loop on fuel; `complete_packets` is the last argument.
  unfoldable pub feed_loop : ℕ → PacketParser → Packets → PacketParser × Packets
  unfolding turn
  feed_loop zero p out = (p, out)
  feed_loop (suc fuel) p out = elim (turn p) [
    | goes_on p' found ↦ feed_loop fuel p' (out ++ found)
    | breaks p' ↦ (p', out)
  ]

  -- Each turn that goes on uses up a null byte or the pending header.
  abbrev pub turns : PacketParser → ℕ
  turns p = 2 * length p.buffer + 2

  unfoldable pub feed : PacketParser → Text → PacketParser × Packets
  unfolding feed_loop
  feed p piece = let p' = record p { buffer = p.buffer ++ piece } in feed_loop (turns p') p' []

  -- The parser over the pieces that `stream.read` returns, and all packets found.
  unfoldable pub feed_all : PacketParser → List Text → PacketParser × Packets
  unfolding feed
  feed_all p [] = (p, [])
  feed_all p (piece ∷ pieces) =
      let (p1, found) = feed p piece in let (p2, more) = feed_all p1 pieces in (p2, found ++ more)

-- The packets that the reader hands to ROS: those with the action Forward.
unfoldable pub to_ros : GdpName → Packets → List GdpPacket
unfolding construct_gdp_forward_from_bytes
to_ros thread_name [] = []
to_ros thread_name ((header, payload) ∷ found) =
    let rest = to_ros thread_name found in
    if is_forward header.action
    then construct_gdp_forward_from_bytes header.destination thread_name payload ∷ rest
    else rest

abbrev pub flat : List Text → Text
flat [] = []
flat (piece ∷ pieces) = piece ++ flat pieces
