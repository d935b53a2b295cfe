-- ===== src/WebRtc/Channel/Duplex.antt =====
-- The two directions of a channel do not disturb each other.
use fogros2_sgc.Base.{
  length-append, ◌+◌, ◌≡◌, refl, sym, ap, subst, ◌∙◌, Bool, true, false, List, [], ◌∷◌, ◌++◌, map,
  arith, if◌then◌else◌, length,
}
use fogros2_sgc.Text.{Text}
use fogros2_sgc.WebRtc.Channel.{
  Channel, Branch, opened, read_piece, write_packet, branch, select_loop, reads, packet, ends,
  closes, shuts,
}
use fogros2_sgc.Name.{GdpName}
use fogros2_sgc.Packet.{feed, flat, new, frame, GdpPacket, Json, Packets, feed_all, to_ros}
use mathlib.Core.List.{append-nil, append_assoc}
use fogros2_sgc.Packet.RoundTrip.{stream, IsJson, feed_all-stream, found_packet}

abbrev pub pieces_of : List Branch → List Text
pieces_of [] = []
pieces_of (reads piece ∷ bs) = piece ∷ pieces_of bs
pieces_of (_ ∷ bs) = pieces_of bs

abbrev pub packets_of : List Branch → List GdpPacket
packets_of [] = []
packets_of (packet k ∷ bs) = k ∷ packets_of bs
packets_of (_ ∷ bs) = packets_of bs

-- Only pieces of at least one byte and packets come.
abbrev pub IsBusy : List Branch → Type 0
IsBusy [] = Unit {0}
IsBusy (reads [] ∷ bs) = ⊥
IsBusy (reads (b ∷ piece) ∷ bs) = IsBusy bs
IsBusy (packet k ∷ bs) = IsBusy bs
IsBusy (_ ∷ bs) = ⊥

to_ros-append :
    (thread_name : GdpName) (xs ys : Packets)
    → to_ros thread_name (xs ++ ys) ≡ to_ros thread_name xs ++ to_ros thread_name ys
unfolding to_ros
to_ros-append thread_name [] ys = refl
to_ros-append thread_name ((header, payload) ∷ xs) ys =
    ground (arith, to_ros-append thread_name xs ys)

module _ (json : Json) (accepts : List Text → Text → Bool) (thread_name : GdpName)
    (takes_all : (before : List Text) (s : Text) → accepts before s ≡ true) where
  -- What a run over some events adds to a state.
  pub record Ran (bs : List Branch) (c c' : Channel) : Type 0 where
    pub fed : c'.parser ≡ (feed_all json c.parser (pieces_of bs)).0
    pub handed :
        c'.to_ros_log ≡ c.to_ros_log ++ to_ros thread_name (feed_all json c.parser (pieces_of bs)).1
    pub written : c'.writes ≡ c.writes ++ map (frame json) (packets_of bs)
    pub received_count :
        c'.received
        ≡ c.received + length (to_ros thread_name (feed_all json c.parser (pieces_of bs)).1)
    pub sent_count : c'.sent ≡ c.sent + length (packets_of bs)

  loop-step :
      (b : Branch) (bs : List Branch) (c : Channel)
      → c.running ≡ true
      → select_loop json accepts thread_name (b ∷ bs) c
        ≡ select_loop json accepts thread_name bs (branch json accepts thread_name b c)
  unfolding select_loop
  loop-step b bs c r =
      ap
        (λ (x : Bool). elim x [
          | true ↦ select_loop json accepts thread_name bs (branch json accepts thread_name b c)
          | false ↦ c
        ])
        r

  write-step :
      (k : GdpPacket) (c : Channel)
      → c.outbound_closed ≡ false
      → branch json accepts thread_name (packet k) c
        ≡ record c { writes = c.writes ++ frame json k ∷ []; sent = c.sent + 1 }
  unfolding branch write_packet
  write-step k c o =
      ap (λ b. if b then c else write_packet json accepts thread_name k c) o
      ∙ ap
          (λ b.
            if b
            then record c { writes = c.writes ++ frame json k ∷ []; sent = c.sent + 1 }
            else record c { running = false })
          (takes_all c.writes (frame json k))

  read-Ran :
      (piece : Text) (bs : List Branch) (c c' : Channel)
      → Ran bs (read_piece json accepts thread_name piece c) c'
      → Ran (reads piece ∷ bs) c c'
  unfolding read_piece feed_all
  read-Ran piece bs c c' h =
      let found = (feed json c.parser piece).1 in
      let more = (feed_all json (feed json c.parser piece).0 (pieces_of bs)).1 in
      let both = to_ros-append thread_name found more in
      record {
        fed = h.fed;
        handed =
            h.handed
            ∙ append_assoc c.to_ros_log (to_ros thread_name found) (to_ros thread_name more)
            ∙ ap (λ t. c.to_ros_log ++ t) (sym both);
        written = h.written;
        received_count = omega (
          arith,
          h.received_count,
          ap (λ (t : List GdpPacket). length t) both,
          length-append {0} (to_ros thread_name found) (to_ros thread_name more),
        );
        sent_count = h.sent_count;
      }

  select_loop-Ran :
      (bs : List Branch) (c : Channel)
      → IsBusy bs
      → c.running ≡ true
      → c.outbound_closed ≡ false
      → Ran bs c (select_loop json accepts thread_name bs c)
  unfolding select_loop feed_all to_ros
  select_loop-Ran [] c busy r o = record {
    fed = refl;
    handed = sym (append-nil c.to_ros_log);
    written = sym (append-nil c.writes);
    received_count = omega arith;
    sent_count = omega arith;
  }
  select_loop-Ran (reads [] ∷ bs) c busy r o = absurd busy
  select_loop-Ran (reads (b ∷ piece) ∷ bs) c busy r o =
      subst (Ran (reads (b ∷ piece) ∷ bs) c) (sym (loop-step (reads (b ∷ piece)) bs c r)) (
        read-Ran (b ∷ piece) bs c
          (select_loop json accepts thread_name bs
            (branch json accepts thread_name (reads (b ∷ piece)) c))
          (unfold branch in
            select_loop-Ran bs (read_piece json accepts thread_name (b ∷ piece) c) busy
              (unfold read_piece in r) (unfold read_piece in o)))
  select_loop-Ran (packet k ∷ bs) c busy r o =
      let c1 : Channel = record c { writes = c.writes ++ frame json k ∷ []; sent = c.sent + 1 } in
      let h = select_loop-Ran bs c1 busy r o in
      subst (Ran (packet k ∷ bs) c)
        (sym (
          loop-step (packet k) bs c r
          ∙ ap (select_loop json accepts thread_name bs) (write-step k c o)))
        (record {
          fed = h.fed;
          handed = h.handed;
          written =
              h.written
              ∙ append_assoc c.writes (frame json k ∷ []) (map (frame json) (packets_of bs));
          received_count = h.received_count;
          sent_count = omega (arith, h.sent_count);
        })
  select_loop-Ran (ends ∷ bs) c busy r o = absurd busy
  select_loop-Ran (closes ∷ bs) c busy r o = absurd busy
  select_loop-Ran (shuts ∷ bs) c busy r o = absurd busy

  -- While only pieces of at least one byte and packets come, and the stream takes each write: in whatever order they come,
  -- ROS is handed the packets to forward that the parser finds in the pieces alone, the stream is
  -- written the frames of the packets alone, and the two counts are those of the packets.
  pub channel_duplex :
      (bs : List Branch)
      → IsBusy bs
      → let c = select_loop json accepts thread_name bs opened in
        (c.to_ros_log ≡ to_ros thread_name (feed_all json new (pieces_of bs)).1)
        × (c.writes ≡ map (frame json) (packets_of bs))
        × (c.received ≡ length c.to_ros_log)
        × (c.sent ≡ length (packets_of bs))
  channel_duplex bs busy =
      let h = select_loop-Ran bs opened busy refl refl in
      (
        h.handed,
        h.written,
        omega (arith, h.received_count, ap (λ (t : List GdpPacket). length t) h.handed),
        omega (arith, h.sent_count),
      )

flat-frames :
    (json : Json) (good : IsJson json) (ks : List GdpPacket)
    → flat (map (frame json) ks) ≡ stream json good ks
flat-frames json good [] = refl
flat-frames json good (k ∷ ks) = ap (λ t. frame json k ++ t) (flat-frames json good ks)

-- Two ends of a channel, each with its own events, which are pieces read of at least one byte and
-- packets from ROS; each stream accepts every write; a header is written as UTF-8 without a null byte,
-- and what is read back from it is that header. If the pieces that one end reads are cut from what the
-- other has written, its ROS is handed the packets of the other, in order, those to forward.
pub channel_delivers :
    (json : Json) (good : IsJson json) (accepts : List Text → Text → Bool) (here there : GdpName)
    → ((before : List Text) (s : Text) → accepts before s ≡ true)
    → (bs ds : List Branch) → IsBusy bs
    → IsBusy ds
    → flat (pieces_of ds) ≡ flat (select_loop json accepts here bs opened).writes
    → (select_loop json accepts there ds opened).to_ros_log
      ≡ to_ros there (map (found_packet json good) (packets_of bs))
channel_delivers json good accepts here there takes_all bs ds busy_b busy_d cut =
    let sent = (channel_duplex json accepts here takes_all bs busy_b).1 in
    (channel_duplex json accepts there takes_all ds busy_d).0
    ∙ ap (to_ros there)
        (feed_all-stream json good (packets_of bs) (pieces_of ds)
          (cut ∙ ap flat sent ∙ flat-frames json good (packets_of bs))).0
