-- ===== src/Packet/Feed.antt =====
-- The loop of `PacketParser::feed` ends by itself: it never runs out of turns.
use fogros2_sgc.Base.{
  ℕ, zero, suc, ◌+◌, ◌*◌, ◌≤◌, ◌<◌, ◌≡◌, refl, ◌⊎◌, inl, inr, none, some, [], ◌∷◌, ◌++◌, arith,
  Option-cases, length, drop,
}
use fogros2_sgc.Text.{Text}
use fogros2_sgc.Packet.{
  turns, feed, feed_loop, turn, Json, Packets, Turn, cut_at_null, PacketParser,
}

cut_at_null-length :
    (bs before after : Text) → cut_at_null bs ≡ some (before, after) → length after < length bs
unfolding cut_at_null
cut_at_null-length [] before after e = absurd (cc)
cut_at_null-length (b ∷ bs) before after e = elim (Option-cases (cut_at_null bs)) [
  | inl c ↦ ground (arith, c)
  | inr ((x, y), c) ↦ ground (arith, c, cut_at_null-length bs x y c)
]

-- Two for each byte, and one for a pending header.
abbrev pub fuel_left : PacketParser → ℕ
fuel_left p = 2 * length p.buffer + elim p.pending_header [ none ↦ 0 | some h ↦ 1 ]

length-drop-le : (n : ℕ) (xs : Text) → length (drop n xs) ≤ length xs
length-drop-le zero xs = omega arith
length-drop-le (suc n) [] = omega arith
length-drop-le (suc n) (x ∷ xs) = omega (arith, length-drop-le n xs)

pub Turn-cases :
    (t : Turn)
    → ((p : PacketParser) × (found : Packets) × (t ≡ Turn.goes_on p found))
      ⊎ ((p : PacketParser) × (t ≡ Turn.breaks p))
Turn-cases (Turn.goes_on p found) = inl (p, found, refl)
Turn-cases (Turn.breaks p) = inr (p, refl)

module _ (json : Json) where
  -- A turn that goes on leaves less to do.
  pub turn-less :
      (p p' : PacketParser) (found : Packets)
      → turn json p ≡ Turn.goes_on p' found
      → fuel_left p' < fuel_left p
  unfolding turn
  turn-less p p' found e = elim (Option-cases p.pending_header) [
    | inr (h, pending) ↦ ground (arith, length-drop-le h.length p.buffer)
    | inl clear ↦ elim (Option-cases (cut_at_null p.buffer)) [
      | inl no_null ↦ ground arith
      | inr ((bytes, rest), cut) ↦ ground (arith, cut_at_null-length p.buffer bytes rest cut)
    ]
  ]

  -- The loop without fuel: some turns that go on, and then one that breaks. The result is that of the
  -- turn that breaks, with the packets of all the others.
  pub data Breaks : PacketParser → Packets → PacketParser × Packets → Type 0 where
    now :
        {p p' : PacketParser} {out : Packets}
        → turn json p ≡ Turn.breaks p'
        → Breaks p out (p', out)
    later :
        {p p' : PacketParser} {out found : Packets} {r : PacketParser × Packets}
        → turn json p ≡ Turn.goes_on p' found
        → Breaks p' (out ++ found) r
        → Breaks p out r

  feed_loop-Breaks :
      (n : ℕ) (p : PacketParser) (out : Packets)
      → fuel_left p < n
      → Breaks p out (feed_loop json n p out)
  unfolding feed_loop
  feed_loop-Breaks zero p out h = absurd (omega arith)
  feed_loop-Breaks (suc n) p out h = elim (Turn-cases (turn json p)) [
    | inr (p', e) ↦ rw (e, feed_loop) (Breaks.now e)
    | inl (p', found, e) ↦
        rw (e, feed_loop)
          (Breaks.later e
            (feed_loop-Breaks n p' (out ++ found) (omega (arith, turn-less p p' found e))))
  ]

  -- The loop of `feed` ends: after finitely many turns that go on, one breaks, and what `feed` returns is
  -- the parser that this turn leaves, with all packets found on the way.
  pub feed_terminates :
      (p : PacketParser) (piece : Text)
      → Breaks (record p { buffer = p.buffer ++ piece }) [] (feed json p piece)
  unfolding feed
  feed_terminates p piece =
      let p' = record p { buffer = p.buffer ++ piece } in
      feed_loop-Breaks (turns json p') p' [] (ground arith)
