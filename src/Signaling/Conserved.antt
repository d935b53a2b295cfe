-- ===== src/Signaling/Conserved.antt =====
-- The hub makes no message, loses none and mixes up none: what clients are sent is what is on their
-- channels or waits for them.
use fogros2_sgc.Base.{
  ℕ, ◌+◌, ◌≡◌, refl, sym, ap, subst, ◌∙◌, inl, inr, Bool, true, false, ◌&&◌, Option, none, some,
  List, [], ◌∷◌, ◌++◌, arith, if◌then◌else◌, nat_beq, Bool-cases, Option-cases,
}
use fogros2_sgc.Text.{Text, ◌==◌, eq_iff}
use fogros2_sgc.Signaling.{
  Hub, Client, JsonCrate, no_clients, readdress, try_send, buffer, relay, register, deliver_pending,
  leave, send_all, kept_for,
}
use fogros2_sgc.Signaling.Sessions.{Event, happen, run, register-lookup, deliver_pending-clients}
use fogros2_sgc.Text.Sets.{lookup, insert, remove, lookup-insert, lookup-remove}

abbrev bit : Bool → ℕ
bit true = 1
bit false = 0

abbrev pub copies : Text → List Text → ℕ
copies msg [] = 0
copies msg (m ∷ ms) = bit (m == msg) + copies msg ms

copies-append :
    (msg : Text) (xs ys : List Text) → copies msg (xs ++ ys) ≡ copies msg xs + copies msg ys
copies-append msg [] ys = omega arith
copies-append msg (x ∷ xs) ys = omega (arith, copies-append msg xs ys)

-- Each channel is of one client; each session has its own.
abbrev pub OwnChannels : (ℕ → Text) → List Event → Type 0
OwnChannels owner [] = Unit {0}
OwnChannels owner (Event.joins id tx ∷ es) = (owner tx ≡ id) × OwnChannels owner es
OwnChannels owner (Event.delivers id tx ∷ es) = (owner tx ≡ id) × OwnChannels owner es
OwnChannels owner (_ ∷ es) = OwnChannels owner es

-- Whether a text of a client asks for this message to this client.
abbrev pub asks : JsonCrate → Text → Text → Text → Text → ℕ
asks json id msg from text = elim (json.parse text) [
  | none ↦ 0
  | some content ↦
      bit (json.id_of content == id && json.stringify (json.with_id from content) == msg)
]

-- How often this message was asked for to this client.
abbrev pub asked : JsonCrate → Text → Text → List Event → ℕ
asked json id msg [] = 0
asked json id msg (Event.relays from text ∷ es) = asks json id msg from text + asked json id msg es
asked json id msg (Event.joins c tx ∷ es) = asked json id msg es
asked json id msg (Event.delivers c tx ∷ es) = asked json id msg es
asked json id msg (Event.leaves c g ∷ es) = asked json id msg es

abbrev or_no_messages : Option (List Text) → List Text
or_no_messages none = []
or_no_messages (some msgs) = msgs

kept_for-lookup : (hub : Hub) (id : Text) → kept_for hub id ≡ or_no_messages (lookup id hub.pending)
kept_for-lookup hub id = elim (Option-cases (lookup id hub.pending)) [
  | inl e ↦ rw (e, kept_for) refl
  | inr (msgs, e) ↦ rw (e, kept_for) refl
]

copies-if :
    (b : Bool) (msg : Text) (m : Option (List Text)) (o : Option (List Text))
    → copies msg (or_no_messages (if b then m else o))
      ≡ (if b then copies msg (or_no_messages m) else copies msg (or_no_messages o))
copies-if true msg m o = refl
copies-if false msg m o = refl

module _ (owner : ℕ → Text) (id msg : Text) where
  -- How often the message was put on the channels of the client.
  abbrev pub delivered : List (ℕ × Text) → ℕ
  delivered [] = 0
  delivered ((tx, m) ∷ sent) = bit (owner tx == id && m == msg) + delivered sent

  -- On a channel of the client, or waiting for it.
  abbrev pub held : Hub → ℕ
  held hub = delivered hub.sent + copies msg (kept_for hub id)

  delivered-append : (xs ys : List (ℕ × Text)) → delivered (xs ++ ys) ≡ delivered xs + delivered ys
  delivered-append [] ys = omega arith
  delivered-append ((tx, m) ∷ xs) ys = omega (arith, delivered-append xs ys)

  delivered-send_all :
      (tx : ℕ) (msgs : List Text)
      → delivered (send_all tx msgs) ≡ (if owner tx == id then copies msg msgs else 0)
  delivered-send_all tx [] = elim (Bool-cases (owner tx == id)) [
    | inl e ↦ rw e refl
    | inr e ↦ rw e refl
  ]
  delivered-send_all tx (m ∷ msgs) = elim (Bool-cases (owner tx == id)) [
    | inl e ↦ let rest = delivered-send_all tx msgs in rw e (omega (arith, rw e at rest))
    | inr e ↦ let rest = delivered-send_all tx msgs in rw e (omega (arith, rw e at rest))
  ]

  deliver_pending-held :
      (hub : Hub) (c : Text) (tx : ℕ) → owner tx ≡ c → held (deliver_pending hub c tx) ≡ held hub
  unfolding deliver_pending
  deliver_pending-held hub c tx own = elim (Option-cases (lookup c hub.pending)) [
    | inl e ↦ rw (e, deliver_pending) refl
    | inr (msgs, e) ↦
        let after : Hub = record hub {
          pending = remove c hub.pending;
          sent = hub.sent ++ send_all tx msgs;
        } in
        let kept = kept_for-lookup after id ∙ ap or_no_messages (lookup-remove c id hub.pending) in
        let was = kept_for-lookup hub id in
        let waited : kept_for hub c ≡ msgs = kept_for-lookup hub c ∙ ap or_no_messages e in
        let more = delivered-append hub.sent (send_all tx msgs) in
        let sent =
          delivered-send_all tx msgs ∙ ap (λ o. if o == id then copies msg msgs else 0) own in
        rw (e, deliver_pending)
          (elim (Bool-cases (c == id)) [
            | inl same ↦
                let none_left : copies msg (kept_for after id) ≡ 0 =
                  ap (copies msg) (rw same at kept) in
                let all_sent : delivered (send_all tx msgs) ≡ copies msg msgs = rw same at sent in
                let waiting : copies msg (kept_for hub id) ≡ copies msg msgs =
                  ap (copies msg)
                    (subst (λ t. kept_for hub t ≡ msgs) ((eq_iff c id).0 same) waited) in
                omega (arith, none_left, all_sent, waiting, more)
            | inr other ↦
                let unchanged : copies msg (kept_for after id) ≡ copies msg (kept_for hub id) =
                  ap (copies msg) ((rw other at kept) ∙ sym was) in
                let none_sent : delivered (send_all tx msgs) ≡ 0 = rw other at sent in
                omega (arith, unchanged, none_sent, more)
          ])
  ]

  buffer-held :
      (hub : Hub) (target m : Text)
      → held (buffer hub target m) ≡ held hub + bit (target == id && m == msg)
  unfolding buffer
  buffer-held hub target m =
      let more = kept_for hub target ++ m ∷ [] in
      let after : Hub = record hub { pending = insert target more hub.pending } in
      let kept =
        kept_for-lookup after id ∙ ap or_no_messages (lookup-insert target id more hub.pending) in
      elim (Bool-cases (target == id)) [
        | inl same ↦
            let now : copies msg (kept_for after id) ≡ copies msg more =
              ap (copies msg) (rw same at kept) in
            let was : copies msg (kept_for hub target) ≡ copies msg (kept_for hub id) =
              ap (λ t. copies msg (kept_for hub t)) ((eq_iff target id).0 same) in
            rw same (omega (arith, now, was, copies-append msg (kept_for hub target) (m ∷ [])))
        | inr other ↦
            let now : copies msg (kept_for after id) ≡ copies msg (kept_for hub id) =
              ap (copies msg) ((rw other at kept) ∙ sym (kept_for-lookup hub id)) in
            rw other (omega (arith, now))
      ]

abbrev channel_or : ℕ → Option Client → ℕ
channel_or tx none = tx
channel_or tx (some c) = c.tx

module _ (json : JsonCrate) (owner : ℕ → Text) where
  -- The channel of a client that is there is its own.
  abbrev Owns : Hub → Type 0
  Owns hub = (id : Text) (c : Client) → lookup id hub.clients ≡ some c → owner c.tx ≡ id

  Owns-register :
      (hub : Hub) (id : Text) (tx : ℕ) → owner tx ≡ id → Owns hub → Owns (register hub id tx)
  Owns-register hub id tx own h other c e = elim (Bool-cases (id == other)) [
    | inl same ↦
        let found = rw same at (sym (register-lookup hub other id tx) ∙ e) in
        let channel : tx ≡ c.tx = ap (channel_or tx) found in
        subst (λ t. owner t ≡ other) channel (own ∙ (eq_iff id other).0 same)
    | inr apart ↦ h other c (rw apart at (sym (register-lookup hub other id tx) ∙ e))
  ]

  Owns-leave : (hub : Hub) (id : Text) (g : ℕ) → Owns hub → Owns (leave hub id g)
  unfolding leave
  Owns-leave hub id g h = elim (Option-cases (lookup id hub.clients)) [
    | inl e ↦ rw (e, leave) h
    | inr (c, e) ↦ elim (Bool-cases (nat_beq c.generation g)) [
      | inr f ↦ rw (e, leave) (rw (f, leave) h)
      | inl f ↦
          rw (e, leave)
            (rw (f, leave)
              (λ other d k.
                let found = sym (lookup-remove id other hub.clients) ∙ k in
                elim (Bool-cases (id == other)) [
                  | inl same ↦ absurd (cc (rw same at found))
                  | inr apart ↦ h other d (rw apart at found)
                ]))
    ]
  ]

  leave-kept :
      (hub : Hub) (id : Text) (g : ℕ)
      → ((leave hub id g).sent ≡ hub.sent) × ((leave hub id g).pending ≡ hub.pending)
  unfolding leave
  leave-kept hub id g = elim (Option-cases (lookup id hub.clients)) [
    | inl e ↦ rw (e, leave) (refl, refl)
    | inr (c, e) ↦ elim (Bool-cases (nat_beq c.generation g)) [
      | inl f ↦ rw (e, leave) (rw (f, leave) (refl, refl))
      | inr f ↦ rw (e, leave) (rw (f, leave) (refl, refl))
    ]
  ]

  relay-held :
      (id msg : Text) (hub : Hub) (from text : Text)
      → Owns hub
      → (held owner id msg (relay json hub from text)
          ≡ held owner id msg hub + asks json id msg from text)
        × ((relay json hub from text).clients ≡ hub.clients)
  unfolding relay try_send readdress
  relay-held id msg hub from text own = elim (Option-cases (json.parse text)) [
    | inl e ↦
        let none_asked : asks json id msg from text ≡ 0 = rw (e, asks) refl in
        rw (e, relay) (omega (arith, none_asked), refl)
    | inr (content, e) ↦
        let target = json.id_of content in
        let m = json.stringify (json.with_id from content) in
        let one : asks json id msg from text ≡ bit (target == id && m == msg) = rw (e, asks) refl in
        elim (Option-cases (lookup target hub.clients)) [
          | inl f ↦
              rw (e, relay)
                (rw (f, relay)
                  (
                    omega (arith, one, buffer-held owner id msg hub target m),
                    unfold buffer in refl,
                  ))
          | inr (c, f) ↦
              let there : bit (owner c.tx == id && m == msg) ≡ bit (target == id && m == msg) =
                ap (λ o. bit (o == id && m == msg)) (own target c f) in
              rw (e, relay)
                (rw (f, relay)
                  (
                    omega (
                      arith,
                      one,
                      there,
                      delivered-append owner id msg hub.sent ((c.tx, m) ∷ []),
                    ),
                    refl,
                  ))
        ]
  ]

  run-held :
      (id msg : Text) (es : List Event) (hub : Hub)
      → OwnChannels owner es
      → Owns hub
      → held owner id msg (run json hub es) ≡ held owner id msg hub + asked json id msg es
  unfolding run
  run-held id msg [] hub o own = omega arith
  run-held id msg (Event.joins c tx ∷ es) hub o own =
      unfold happen in
      run-held id msg es (register hub c tx) o.1 (Owns-register hub c tx o.0 own)
      ∙ (unfold register in refl)
  run-held id msg (Event.delivers c tx ∷ es) hub o own =
      let same = deliver_pending-held owner id msg hub c tx o.0 in
      let own' : Owns (deliver_pending hub c tx) =
        λ other d k. own other d (ap (lookup other) (sym (deliver_pending-clients hub c tx)) ∙ k) in
      unfold happen in omega (arith, run-held id msg es (deliver_pending hub c tx) o.1 own', same)
  run-held id msg (Event.relays from text ∷ es) hub o own =
      let (more, clients) = relay-held id msg hub from text own in
      let own' : Owns (relay json hub from text) =
        λ other d k. own other d (ap (lookup other) (sym clients) ∙ k) in
      unfold happen in omega (arith, run-held id msg es (relay json hub from text) o own', more)
  run-held id msg (Event.leaves c g ∷ es) hub o own =
      let (s, p) = leave-kept hub c g in
      let sent = ap (delivered owner id msg) s in
      let kept : copies msg (kept_for (leave hub c g) id) ≡ copies msg (kept_for hub id) =
        ap (λ ps. copies msg (or_no_messages (lookup id ps))) p in
      let rest = run-held id msg es (leave hub c g) o (Owns-leave hub c g own) in
      unfold happen in omega (arith, rest, sent, kept)

  -- Whatever clients join, get what waits for them, send and leave, in whatever order, if each channel is
  -- that of one client: each message to a client is on the channels of that client and among those that
  -- wait for it, taken together, exactly as often as texts that the json crate parses have asked for it:
  -- with this client as their id, and printed as this message with the sender's id in its place.
  pub hub_conserves :
      (es : List Event)
      → OwnChannels owner es
      → (id msg : Text) → held owner id msg (run json no_clients es) ≡ asked json id msg es
  unfolding lookup
  hub_conserves es o id msg =
      omega (arith, run-held id msg es no_clients o (λ other c e. absurd (cc (e))))
