-- ===== src/Packet/RoundTrip.antt =====
-- What the writer frames, the parser finds again, in whatever pieces it arrives.
use fogros2_sgc.Base.{
  length-append, ℕ, zero, suc, ◌<◌, ◌≡◌, refl, sym, ap, subst, ◌∙◌, inl, inr, true, Option, none,
  some, List, [], ◌∷◌, ◌++◌, map, arith, leb, Bool-cases, Option-cases, length, take, drop,
}
use fogros2_sgc.Text.{Text}
use mathlib.Core.List.{append-nil, map-append, append_assoc}
use fogros2_sgc.Packet.{
  new, turns, feed, flat, feed_all, turn, Packets, feed_loop, take_header, take_payload, frame,
  GdpHeader, GdpPacket, Json, Turn, cut_at_null, get_header, or_empty, parse_header, record_bytes,
  PacketParser,
}
use fogros2_sgc.Text.Parts.{from_utf8-IsUtf8, Avoids, is_utf8}
use fogros2_sgc.Packet.Feed.{turn-less, fuel_left}
use fogros2_sgc.Packet.Cut.{cut_unique, cut_at_null-none, cut_at_null-some, take-prefix}

-- A header is written as UTF-8 text with no null byte, and is read back.
pub record HeaderText (json : Json) (h : GdpHeader) : Type 0 where
  pub written : Text
  pub writes : json.write_header h ≡ some written
  pub no_null : Avoids 0 written
  pub utf8 : is_utf8 written ≡ true
  pub reads : json.read_header written ≡ some h

abbrev pub IsJson : Json → Type 0
IsJson json = (h : GdpHeader) → HeaderText json h

module _ (json : Json) (good : IsJson json) where
  abbrev header : GdpPacket → GdpHeader
  header = get_header json

  -- The bytes that follow the null byte.
  abbrev body : GdpPacket → Text
  body k = or_empty k.payload ++ record_bytes json k

  -- What the parser is to find for a packet.
  abbrev pub found_packet : GdpPacket → GdpHeader × Text
  found_packet k = (header k, body k)

  abbrev pub stream : List GdpPacket → Text
  stream [] = []
  stream (k ∷ ks) = frame json k ++ stream ks

  body-length : (k : GdpPacket) → (header k).length ≡ length (body k)
  unfolding get_header
  body-length k = omega (arith, length-append {0} (or_empty k.payload) (record_bytes json k))

  frame-eq :
      (k : GdpPacket) (more : Text)
      → frame json k ++ more ≡ (good (header k)).written ++ (0 ∷ (body k ++ more))
  unfolding frame
  frame-eq k more =
      rw ((good (header k)).writes) (append_assoc (good (header k)).written (0 ∷ body k) more)

  -- The bytes in the buffer and those still to come are the packets still to find.
  abbrev Sync : Option GdpHeader → Text → Text → List GdpPacket → Type 0
  Sync none buffer rest ks = buffer ++ rest ≡ stream ks
  Sync (some h) buffer rest [] = ⊥
  Sync (some h) buffer rest (k ∷ ks) = (h ≡ header k) × (buffer ++ rest ≡ body k ++ stream ks)

  -- A turn finds the next packet, or stops because more bytes are needed.
  pub data Progress (rest : Text) (ks : List GdpPacket) : Turn → Type 0 where
    header_read :
        (p : PacketParser)
        → Sync p.pending_header p.buffer rest ks
        → Progress rest ks (Turn.goes_on p [])
    packet_read :
        (p : PacketParser) (k : GdpPacket) (ks' : List GdpPacket)
        → ks ≡ k ∷ ks'
        → Sync p.pending_header p.buffer rest ks'
        → Progress rest ks (Turn.goes_on p (found_packet k ∷ []))
    waits :
        (p : PacketParser)
        → Sync p.pending_header p.buffer rest ks
        → (rest ≡ [] → (ks ≡ []) × (p.buffer ≡ []) × (p.pending_header ≡ none))
        → Progress rest ks (Turn.breaks p)

  parse_header-written :
      (h : GdpHeader) (s : Text) → s ≡ (good h).written → parse_header json s ≡ some h
  unfolding parse_header
  parse_header-written h s e =
      rw e (rw (from_utf8-IsUtf8 (good h).written (good h).utf8, parse_header) (good h).reads)

  append-eq-nil : (x y : Text) → x ++ y ≡ [] → x ≡ []
  append-eq-nil [] y e = refl
  append-eq-nil (a ∷ as') y e = absurd (cc)

  empty-cut : (x : Text) → x ≡ [] → cut_at_null x ≡ none
  unfolding cut_at_null
  empty-cut x e = rw e

  header-Progress :
      (p : PacketParser) (rest : Text) (ks : List GdpPacket)
      → Sync none p.buffer rest ks
      → p.pending_header ≡ none
      → Progress rest ks (take_header json p)
  unfolding take_header
  header-Progress p rest [] sync clear =
      let e = append-eq-nil p.buffer rest sync in
      rw (empty-cut p.buffer e, take_header) (waits p (rw clear sync) (λ _. (refl, e, clear)))
  header-Progress p rest (k ∷ ks) sync clear = elim (Option-cases (cut_at_null p.buffer)) [
    | inl c ↦
        rw (c, take_header)
          (waits p (rw clear sync)
            (λ e. absurd (omega (arith, ap length e, cut_at_null-none _ p.buffer rest _ c framed))))
    | inr ((bytes, after), c) ↦
        let parts = cut_at_null-some p.buffer bytes after c in
        let u =
          cut_unique bytes (good (header k)).written (after ++ rest) (body k ++ stream ks) parts.0
            (good (header k)).no_null
            (sym (append_assoc bytes (0 ∷ after) rest) ∙ rw (← parts.1) framed) in
        rw (c, take_header)
          (rw (parse_header-written (header k) bytes u.0, take_header)
            (header_read
              (record { buffer = after; pending_header = some (header k); parse_retries = 0 })
              (refl, u.1)))
  ]
    where
      framed : p.buffer ++ rest ≡ (good (header k)).written ++ (0 ∷ (body k ++ stream ks))
      framed = sync ∙ frame-eq k (stream ks)

  payload-Progress :
      (p : PacketParser) (h : GdpHeader) (rest : Text) (ks : List GdpPacket)
      → Sync (some h) p.buffer rest ks
      → p.pending_header ≡ some h
      → Progress rest ks (take_payload json p h)
  unfolding take_payload
  payload-Progress p h rest [] sync pending = absurd sync
  payload-Progress p h rest (k ∷ ks) sync pending =
      elim (Bool-cases (leb h.length (length p.buffer))) [
        | inl full ↦
            rw (full, take_payload)
              (subst (Progress rest (k ∷ ks)) (cc (size, (cut full).0, sync.0))
                (packet_read after k ks refl (cut full).1))
        | inr short ↦
            rw (short, take_payload)
              (waits p (rw pending sync) (λ e. absurd (
                ground (
                  arith,
                  size,
                  ap length sync.1,
                  ap length e,
                  length-append p.buffer rest,
                  length-append (body k) (stream ks),
                ))))
      ]
    where
      size : h.length ≡ length (body k)
      size = ap (λ (x : GdpHeader). x.length) sync.0 ∙ body-length k

      cut :
          leb h.length (length p.buffer) ≡ true
          → (take (length (body k)) p.buffer ≡ body k)
            × (drop (length (body k)) p.buffer ++ rest ≡ stream ks)
      cut full = take-prefix (body k) p.buffer rest (stream ks) (ground (arith, size)) sync.1

      after : PacketParser
      after = record {
        buffer = drop (length (body k)) p.buffer;
        pending_header = none;
        parse_retries = 0;
      }

  turn-Progress :
      (p : PacketParser) (rest : Text) (ks : List GdpPacket)
      → Sync p.pending_header p.buffer rest ks
      → Progress rest ks (turn json p)
  unfolding turn
  turn-Progress p rest ks sync = elim (Option-cases p.pending_header) [
    | inl clear ↦ rw (clear, turn) (header-Progress p rest ks (rw clear at sync) clear)
    | inr (h, pending) ↦
        rw (pending, turn) (payload-Progress p h rest ks (rw pending at sync) pending)
  ]

  -- What a run of the loop leaves, with `out` found before: some packets, then the rest still to find.
  pub record Found (rest : Text) (ks : List GdpPacket) (out : Packets) (r : PacketParser × Packets)
      : Type 0 where
    pub now : List GdpPacket
    pub later : List GdpPacket
    pub all : ks ≡ now ++ later
    pub packets : r.1 ≡ out ++ map found_packet now
    pub sync : Sync r.0.pending_header r.0.buffer rest later
    pub ends : rest ≡ [] → (later ≡ []) × (r.0.buffer ≡ []) × (r.0.pending_header ≡ none)

  loop-step :
      (fuel : ℕ) (p : PacketParser) (out : Packets) (rest : Text) (ks : List GdpPacket) (t : Turn)
      → Progress rest ks t
      → turn json p ≡ t
      → ((p' : PacketParser) (out' : Packets) (ks' : List GdpPacket)
          → fuel_left p' < fuel_left p
          → Sync p'.pending_header p'.buffer rest ks'
          → Found rest ks' out' (feed_loop json fuel p' out'))
      → Found rest ks out (feed_loop json (suc fuel) p out)
  unfolding feed_loop
  loop-step fuel p out rest ks _ (Progress.header_read p' sync) e rec =
      rw (e, feed_loop)
        (subst (λ o. Found rest ks out (feed_loop json fuel p' o)) (sym (append-nil out))
          (rec p' out ks (turn-less json p p' [] e) sync))
  loop-step fuel p out rest ks _ (Progress.packet_read p' k ks' same sync) e rec =
      let r =
        rec p' (out ++ found_packet k ∷ []) ks' (turn-less json p p' (found_packet k ∷ []) e)
          sync in
      rw (e, feed_loop)
        (record {
          now = k ∷ r.now;
          later = r.later;
          all = same ∙ ap (◌∷◌ k) r.all;
          packets = r.packets ∙ append_assoc out (found_packet k ∷ []) (map found_packet r.now);
          sync = r.sync;
          ends = r.ends;
        })
  loop-step fuel p out rest ks _ (Progress.waits p' sync ends) e rec =
      rw (e, feed_loop)
        (record {
          now = [];
          later = ks;
          all = refl;
          packets = sym (append-nil out);
          sync = sync;
          ends = ends;
        })

  loop-Found :
      (fuel : ℕ) (p : PacketParser) (out : Packets) (rest : Text) (ks : List GdpPacket)
      → fuel_left p < fuel
      → Sync p.pending_header p.buffer rest ks
      → Found rest ks out (feed_loop json fuel p out)
  loop-Found zero p out rest ks h sync = absurd (omega arith)
  loop-Found (suc fuel) p out rest ks h sync =
      loop-step fuel p out rest ks (turn json p) (turn-Progress p rest ks sync) refl
        (λ p' out' ks' less sync'. loop-Found fuel p' out' rest ks' (omega arith) sync')

  Sync-append :
      (pending : Option GdpHeader) (buffer piece rest : Text) (ks : List GdpPacket)
      → Sync pending buffer (piece ++ rest) ks
      → Sync pending (buffer ++ piece) rest ks
  Sync-append none buffer piece rest ks s = append_assoc buffer piece rest ∙ s
  Sync-append (some h) buffer piece rest [] s = s
  Sync-append (some h) buffer piece rest (k ∷ ks) s = (s.0, append_assoc buffer piece rest ∙ s.1)

  feed-Found :
      (p : PacketParser) (piece rest : Text) (ks : List GdpPacket)
      → Sync p.pending_header p.buffer (piece ++ rest) ks
      → Found rest ks [] (feed json p piece)
  unfolding feed
  feed-Found p piece rest ks s =
      let p' = record p { buffer = p.buffer ++ piece } in
      loop-Found (turns json p') p' [] rest ks (ground arith)
        (Sync-append p.pending_header p.buffer piece rest ks s)

  -- From a parser in step with the stream, the pieces give the packets, and leave nothing behind.
  feed_all-Sync :
      (pieces : List Text) (p : PacketParser) (ks : List GdpPacket)
      → Sync p.pending_header p.buffer (flat pieces) ks
      → (pieces ≡ [] → (ks ≡ []) × (p.buffer ≡ []) × (p.pending_header ≡ none))
      → ((feed_all json p pieces).1 ≡ map found_packet ks)
        × ((feed_all json p pieces).0.buffer ≡ [])
        × ((feed_all json p pieces).0.pending_header ≡ none)
  unfolding feed_all
  feed_all-Sync [] p ks s ends =
      let (none_left, empty_buffer, clear) = ends refl in (rw none_left, empty_buffer, clear)
  feed_all-Sync (piece ∷ pieces) p ks s ends =
      let r = feed-Found p piece (flat pieces) ks s in
      let (packets, empty_buffer, clear) =
        feed_all-Sync pieces (feed json p piece).0 r.later r.sync (λ e. r.ends (ap flat e)) in
      (
        rw (r.packets, packets, r.all) (sym (map-append found_packet r.now r.later)),
        empty_buffer,
        clear,
      )

  -- However the bytes of some packets are cut into pieces, feeding the pieces to a new parser gives
  -- these packets' headers and bodies, in order, and leaves the parser empty.
  pub feed_all-stream :
      (ks : List GdpPacket) (pieces : List Text)
      → flat pieces ≡ stream ks
      → ((feed_all json new pieces).1 ≡ map found_packet ks)
        × ((feed_all json new pieces).0.buffer ≡ [])
        × ((feed_all json new pieces).0.pending_header ≡ none)
  feed_all-stream ks pieces e =
      feed_all-Sync pieces new ks e (λ h. (empty-stream ks (sym e ∙ ap flat h), refl, refl))
    where
      empty-stream : (ks : List GdpPacket) → stream ks ≡ [] → ks ≡ []
      empty-stream [] h = refl
      empty-stream (k ∷ ks) h = absurd (
          ground (
            arith,
            ap length (sym (frame-eq k (stream ks)) ∙ h),
            length-append (good (header k)).written (0 ∷ (body k ++ stream ks)),
          ))
