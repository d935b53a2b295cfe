-- ===== src/Signaling/Mail.antt =====
-- Messages for clients that are not there yet: when they arrive, and when they do not.
use fogros2_sgc.Base.{ℕ, ◌≡◌, refl, ap, false, none, some, List, [], ◌∷◌, ◌++◌}
use fogros2_sgc.Text.{Text, ◌==◌, eq_refl}
use fogros2_sgc.Signaling.{Hub, register, deliver_pending, buffer, try_send, kept_for, send_all}
use fogros2_sgc.Text.Sets.{remove, lookup-remove, lookup, lookup-insert}
use fogros2_sgc.Signaling.Sessions.{next_generation-none, register-same}
use mathlib.Core.List.{append_assoc}

-- The two steps of a client that joins, with nothing between them.
unfoldable pub arrive : Hub → Text → ℕ → Hub
arrive hub id tx = deliver_pending (register hub id tx) id tx

arrive-none :
    (hub : Hub) (id : Text) (tx : ℕ)
    → lookup id hub.pending ≡ none
    → arrive hub id tx ≡ register hub id tx
unfolding arrive deliver_pending register
arrive-none hub id tx e = rw (e, deliver_pending) refl

arrive-some :
    (hub : Hub) (id : Text) (tx : ℕ) (msgs : List Text)
    → lookup id hub.pending ≡ some msgs
    → ((arrive hub id tx).sent ≡ hub.sent ++ send_all tx msgs)
      × ((arrive hub id tx).pending ≡ remove id hub.pending)
unfolding arrive deliver_pending register
arrive-some hub id tx msgs e = (rw (e, deliver_pending) refl, rw (e, deliver_pending) refl)

buffer-kept :
    (hub : Hub) (id msg : Text)
    → lookup id (buffer hub id msg).pending ≡ some (kept_for hub id ++ msg ∷ [])
unfolding buffer
buffer-kept hub id msg =
    rw (lookup-insert id id (kept_for hub id ++ msg ∷ []) hub.pending) (rw (eq_refl id) refl)

kept-buffer :
    (hub : Hub) (id msg : Text) → kept_for (buffer hub id msg) id ≡ kept_for hub id ++ msg ∷ []
kept-buffer hub id msg = rw (buffer-kept hub id msg, kept_for) refl

buffer-other :
    (hub : Hub) (id other msg : Text)
    → (id == other) ≡ false
    → lookup other (buffer hub id msg).pending ≡ lookup other hub.pending
unfolding buffer
buffer-other hub id other msg ne =
    rw (lookup-insert id other (kept_for hub id ++ msg ∷ []) hub.pending) (rw ne refl)

buffer-sent : (hub : Hub) (id msg : Text) → (buffer hub id msg).sent ≡ hub.sent
unfolding buffer
buffer-sent hub id msg = refl

-- Two messages that are kept for a client that is not there are sent on its channel when it joins,
-- after those kept before and in their order, and are kept no longer; what is kept for others
-- stays.
pub arrive-delivers :
    (hub : Hub) (id first second : Text) (tx : ℕ)
    → let hub' = arrive (buffer (buffer hub id first) id second) id tx in
      (hub'.sent ≡ hub.sent ++ send_all tx (kept_for hub id ++ first ∷ second ∷ []))
      × (lookup id hub'.pending ≡ none)
      × ((other : Text)
          → (id == other) ≡ false
          → lookup other hub'.pending ≡ lookup other hub.pending)
arrive-delivers hub id first second tx =
    let one = buffer hub id first in
    let two = buffer one id second in
    let kept : kept_for one id ++ second ∷ [] ≡ kept_for hub id ++ first ∷ second ∷ [] =
      rw (kept-buffer hub id first) (append_assoc (kept_for hub id) (first ∷ []) (second ∷ [])) in
    let (all_sent, gone) =
      arrive-some two id tx (kept_for one id ++ second ∷ []) (buffer-kept one id second) in
    (
      rw all_sent (cc (buffer-sent one id second, buffer-sent hub id first, kept)),
      rw gone (rw (lookup-remove id id two.pending) (rw (eq_refl id) refl)),
      λ other ne. rw gone (
          rw (lookup-remove id other two.pending)
            (rw (ne, buffer-other one id other second ne) (buffer-other hub id other first ne))),
    )

kept-none :
    (hub : Hub) (id msg : Text)
    → lookup id hub.pending ≡ none
    → kept_for hub id ++ msg ∷ [] ≡ msg ∷ []
kept-none hub id msg e = rw (e, kept_for) refl

-- A message to a client that joins between the two steps of the relay is not sent: the client was not
-- there at the first step, its kept messages were sent before the second, and the message stays kept.
pub relay_race :
    (hub : Hub) (id msg : Text) (tx : ℕ)
    → lookup id hub.clients ≡ none
    → lookup id hub.pending ≡ none
    → let hub' = buffer (arrive hub id tx) id msg in
      (try_send hub id msg ≡ none)
      × (lookup id hub'.clients ≡ some (record { generation = 1; tx = tx }))
      × (hub'.sent ≡ hub.sent)
      × (lookup id hub'.pending ≡ some (msg ∷ []))
relay_race hub id msg tx absent none_kept =
    let joined_up = register hub id tx in
    (
      unfold try_send in rw (absent, try_send) refl,
      rw (arrive-none hub id tx none_kept)
          (unfold buffer in register-same hub id tx 1 (next_generation-none hub id absent)),
      rw (arrive-none hub id tx none_kept) (unfold buffer register in refl),
      rw (arrive-none hub id tx none_kept) (
          rw (buffer-kept joined_up id msg)
            (ap some (kept-none joined_up id msg (unfold register in none_kept)))),
    )
