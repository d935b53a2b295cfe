-- ===== src/Tests/Frames.antt =====
-- Framing with headers written as unary numbers.
use fogros2_sgc.Base.{
  ℕ, zero, suc, ◌≡◌, refl, ap, true, false, none, some, List, [], ◌∷◌, ◌++◌, map, if◌then◌else◌,
  nat_beq, length, drop,
}
use fogros2_sgc.Text.{Text, codes}
use fogros2_sgc.Packet.{
  to_ros, feed, flat, frame, new, GdpAction, GdpHeader, GdpPacket, construct_gdp_forward_from_bytes,
  feed_all, get_header, or_empty, record_bytes, Json,
}
use fogros2_sgc.Packet.RoundTrip.{found_packet, stream, IsJson, feed_all-stream}
use fogros2_sgc.Text.Parts.{Avoids, IsAscii, is_utf8-IsAscii}
use fogros2_sgc.Name.{GdpName}
use fogros2_sgc.Packet.Feed.{Breaks, feed_terminates}
use fogros2_sgc.Packet.Forward.{all_published, messages_published, network_to_ros, ros_to_network}
use fogros2_sgc.WebRtc.Channel.Duplex.{
  IsBusy, channel_delivers, channel_duplex, packets_of, pieces_of,
}
use fogros2_sgc.WebRtc.Channel.{reads, opened, packet, Branch, select_loop}

put_num : ℕ → Text → Text
put_num zero s = 1 ∷ s
put_num (suc n) s = 2 ∷ put_num n s

get_num : Text → ℕ × Text
get_num [] = (0, [])
get_num (b ∷ s) = let (n, rest) = get_num s in if nat_beq b 2 then (suc n, rest) else (0, s)

get_num-put : (n : ℕ) (s : Text) → get_num (put_num n s) ≡ (n, s)
unfolding get_num put_num
get_num-put zero s = refl
get_num-put (suc n) s = rw (get_num-put n s)

Plain : Text → Type 0
Plain s = Avoids 0 s × IsAscii s

put_num-Plain : (n : ℕ) (s : Text) → Plain s → Plain (put_num n s)
unfolding put_num Plain
put_num-Plain zero s h = ((refl, h.0), (refl, h.1))
put_num-Plain (suc n) s h = let (a, i) = put_num-Plain n s h in ((refl, a), (refl, i))

action_code : GdpAction → ℕ
action_code GdpAction.noop = 0
action_code GdpAction.forward = 1
action_code GdpAction.advertise = 2
action_code GdpAction.advertise_response = 3
action_code GdpAction.rib_get = 4
action_code GdpAction.rib_reply = 5
action_code GdpAction.nack = 6
action_code GdpAction.control = 7

action_of : ℕ → GdpAction
action_of n =
    if nat_beq n 0
    then GdpAction.noop
    else if nat_beq n 1
    then GdpAction.forward
    else if nat_beq n 2
    then GdpAction.advertise
    else if nat_beq n 3
    then GdpAction.advertise_response
    else if nat_beq n 4
    then GdpAction.rib_get
    else if nat_beq n 5
    then GdpAction.rib_reply
    else if nat_beq n 6
    then GdpAction.nack
    else GdpAction.control

action_of-code : (a : GdpAction) → action_of (action_code a) ≡ a
unfolding action_of action_code
action_of-code GdpAction.noop = refl
action_of-code GdpAction.forward = refl
action_of-code GdpAction.advertise = refl
action_of-code GdpAction.advertise_response = refl
action_of-code GdpAction.rib_get = refl
action_of-code GdpAction.rib_reply = refl
action_of-code GdpAction.nack = refl
action_of-code GdpAction.control = refl

put_header : GdpHeader → Text
put_header h = put_num (action_code h.action) (
    put_num h.destination.byte0 (
      put_num h.destination.byte1
        (put_num h.destination.byte2 (put_num h.destination.byte3 (put_num h.length [])))))

get_header_text : Text → GdpHeader
get_header_text s =
    let (action, s0) = get_num s in
    let (b0, s1) = get_num s0 in
    let (b1, s2) = get_num s1 in
    let (b2, s3) = get_num s2 in
    let (b3, s4) = get_num s3 in
    let (size, s5) = get_num s4 in
    record {
      action = action_of action;
      destination = record { byte0 = b0; byte1 = b1; byte2 = b2; byte3 = b3 };
      length = size;
    }

get_header_text-put : (h : GdpHeader) → get_header_text (put_header h) ≡ h
unfolding get_header_text put_header
get_header_text-put h =
    let t5 = put_num h.length [] in
    let t4 = put_num h.destination.byte3 t5 in
    let t3 = put_num h.destination.byte2 t4 in
    let t2 = put_num h.destination.byte1 t3 in
    let t1 = put_num h.destination.byte0 t2 in
    rw (get_num-put (action_code h.action) t1) (
      rw (get_num-put h.destination.byte0 t2) (
        rw (get_num-put h.destination.byte1 t3) (
          rw (get_num-put h.destination.byte2 t4) (
            rw (get_num-put h.destination.byte3 t5)
              (rw (get_num-put h.length [], action_of-code h.action) refl)))))

nil-Plain : Plain []
unfolding Plain
nil-Plain = (tt, tt)

put_header-Plain : (h : GdpHeader) → Plain (put_header h)
unfolding put_header
put_header-Plain h = put_num-Plain (action_code h.action) _ (
    put_num-Plain h.destination.byte0 _ (
      put_num-Plain h.destination.byte1 _ (
        put_num-Plain h.destination.byte2 _
          (put_num-Plain h.destination.byte3 _ (put_num-Plain h.length [] nil-Plain)))))

unary : Json
unary = record {
  write_header = λ h. some (put_header h);
  read_header = λ s. some (get_header_text s);
  write_record = λ r. some (codes "record");
}

unary-IsJson : IsJson unary
unfolding unary Plain
unary-IsJson h = record {
  written = put_header h;
  writes = refl;
  no_null = (put_header-Plain h).0;
  utf8 = is_utf8-IsAscii (put_header h) (put_header-Plain h).1;
  reads = ap some (get_header_text-put h);
}

abbrev small_name : GdpName
small_name = record { byte0 = 1; byte1 = 0; byte2 = 2; byte3 = 0 }

abbrev hello : GdpPacket
hello = construct_gdp_forward_from_bytes small_name small_name (codes "hi")

-- Two packets, with the first header cut in two.
abbrev pieces : List Text
pieces = (2 ∷ 1 ∷ 2 ∷ []) ∷ drop 3 (frame unary hello) ∷ frame unary hello ∷ []

pieces-stream : flat pieces ≡ stream unary unary-IsJson (hello ∷ hello ∷ [])
unfolding frame unary unary-IsJson put_header put_num action_code construct_gdp_forward_from_bytes
pieces-stream = refl

feed_all-stream_example :
    ((feed_all unary new pieces).1
      ≡ map
          (λ k. (get_header unary k, or_empty k.payload ++ record_bytes unary k))
          (hello ∷ hello ∷ []))
    × ((feed_all unary new pieces).0.buffer ≡ [])
    × ((feed_all unary new pieces).0.pending_header ≡ none)
feed_all-stream_example =
    feed_all-stream unary unary-IsJson (hello ∷ hello ∷ []) pieces pieces-stream

feed_terminates_example :
    Breaks unary
      (record { buffer = 1 ∷ 0 ∷ []; pending_header = none; parse_retries = 5 })
      []
      (feed unary (record { buffer = []; pending_header = none; parse_retries = 5 }) (1 ∷ 0 ∷ []))
feed_terminates_example =
    feed_terminates unary (record { buffer = []; pending_header = none; parse_retries = 5 })
      (1 ∷ 0 ∷ [])

abbrev split_message : List Text
split_message =
    (2 ∷ 1 ∷ 2 ∷ [])
    ∷ drop 3 (frame unary (construct_gdp_forward_from_bytes small_name small_name (codes "hi")))
    ∷ []

split_message-stream :
    flat split_message
    ≡ stream unary unary-IsJson (ros_to_network small_name small_name (codes "hi" ∷ []))
unfolding frame unary unary-IsJson put_header put_num action_code construct_gdp_forward_from_bytes
    ros_to_network
split_message-stream = refl

messages_published_example :
    network_to_ros small_name small_name false
      (to_ros small_name (feed_all unary new split_message).1)
    ≡ all_published small_name (codes "hi" ∷ [])
messages_published_example =
    messages_published unary unary-IsJson small_name small_name small_name small_name
      (codes "hi" ∷ []) split_message split_message-stream

-- One end writes two packets and reads nothing, the other reads the pieces while it writes one packet.
abbrev sender : List Branch
sender = packet hello ∷ packet hello ∷ []

abbrev receiver : List Branch
receiver =
    reads (2 ∷ 1 ∷ 2 ∷ [])
    ∷ packet hello
    ∷ reads (drop 3 (frame unary hello))
    ∷ reads (frame unary hello)
    ∷ []

pieces-written :
    flat (pieces_of receiver)
    ≡ flat (select_loop unary (λ before s. true) small_name sender opened).writes
unfolding frame unary select_loop put_header put_num action_code construct_gdp_forward_from_bytes
pieces-written = refl

receiver-IsBusy : IsBusy receiver
unfolding frame unary put_header put_num action_code construct_gdp_forward_from_bytes
receiver-IsBusy = tt

channel_duplex_example :
    let c = select_loop unary (λ before s. true) small_name receiver opened in
    (c.to_ros_log ≡ to_ros small_name (feed_all unary new (pieces_of receiver)).1)
    × (c.writes ≡ map (frame unary) (packets_of receiver))
    × (c.received ≡ length c.to_ros_log)
    × (c.sent ≡ length (packets_of receiver))
channel_duplex_example =
    channel_duplex unary (λ before s. true) small_name (λ before s. refl) receiver receiver-IsBusy

channel_delivers_example :
    (select_loop unary (λ before s. true) small_name receiver opened).to_ros_log
    ≡ to_ros small_name (map (found_packet unary unary-IsJson) (packets_of sender))
channel_delivers_example =
    channel_delivers unary unary-IsJson (λ before s. true) small_name small_name (λ before s. refl)
      sender receiver tt receiver-IsBusy pieces-written
