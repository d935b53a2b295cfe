-- ===== src/Signaling/Sessions.antt =====
-- Generations: which sessions of a client a `leave` removes.
use fogros2_sgc.Base.{
  ℕ, ◌+◌, ◌-◌, ◌<◌, ◌≡◌, refl, inl, inr, true, false, none, some, List, [], ◌∷◌, arith,
  if◌then◌else◌, nat_beq, Bool-cases, Option-cases,
}
use fogros2_sgc.Text.{Text, ◌==◌, eq_iff, eq_refl}
use fogros2_sgc.Signaling.{
  readdress, buffer, JsonCrate, next_generation, try_send, Hub, Client, register, deliver_pending,
  leave, relay,
}
use fogros2_sgc.Text.Sets.{lookup, lookup-insert, lookup-remove}

-- What the tasks do to the hub. `leaves` is the cleanup of the session with that generation.
pub data Event : Type 0 where
  joins : Text → ℕ → Event
  delivers : Text → ℕ → Event
  relays : Text → Text → Event
  leaves : Text → ℕ → Event

-- No session of the client ends.
abbrev pub Stays : Text → List Event → Type 0
Stays id [] = Unit {0}
Stays id (Event.leaves other g ∷ es) = ((other == id) ≡ false) × Stays id es
Stays id (_ ∷ es) = Stays id es

-- The client is registered, with at least this generation.
abbrev pub NewerThan : ℕ → Text → Hub → Type 0
NewerThan g id hub = (c : Client) × (lookup id hub.clients ≡ some c) × (g < c.generation)

pub deliver_pending-clients :
    (hub : Hub) (id : Text) (tx : ℕ) → (deliver_pending hub id tx).clients ≡ hub.clients
unfolding deliver_pending
deliver_pending-clients hub id tx = elim (Option-cases (lookup id hub.pending)) [
  | inl e ↦ rw (e, deliver_pending) refl
  | inr (msgs, e) ↦ rw (e, deliver_pending) refl
]

pub register-lookup :
    (hub : Hub) (id other : Text) (tx : ℕ)
    → lookup id (register hub other tx).clients ≡ (
        if other == id
        then some (record { generation = next_generation hub other; tx = tx })
        else lookup id hub.clients)
unfolding register
register-lookup hub id other tx = lookup-insert other id _ hub.clients

pub next_generation-none :
    (hub : Hub) (id : Text) → lookup id hub.clients ≡ none → next_generation hub id ≡ 1
unfolding next_generation
next_generation-none hub id e = rw (e, next_generation) refl

next_generation-some :
    (hub : Hub) (id : Text) (c : Client)
    → lookup id hub.clients ≡ some c
    → next_generation hub id ≡ c.generation + 1
unfolding next_generation
next_generation-some hub id c e = rw (e, next_generation) refl

pub register-same :
    (hub : Hub) (id : Text) (tx g : ℕ)
    → next_generation hub id ≡ g
    → lookup id (register hub id tx).clients ≡ some (record { generation = g; tx = tx })
register-same hub id tx g e = rw (register-lookup hub id id tx) (rw (eq_refl id, e) refl)

leave-newer :
    (hub : Hub) (id : Text) (g : ℕ) (c : Client)
    → lookup id hub.clients ≡ some c
    → g < c.generation
    → leave hub id g ≡ hub
unfolding leave
leave-newer hub id g c e lt =
    let differs : nat_beq c.generation g ≡ false = ground arith in
    rw (e, leave) (rw (differs, leave) refl)

leave-own :
    (hub : Hub) (id : Text) (g tx : ℕ)
    → lookup id hub.clients ≡ some (record { generation = g; tx = tx })
    → lookup id (leave hub id g).clients ≡ none
unfolding leave
leave-own hub id g tx e =
    let same : nat_beq g g ≡ true = ground arith in
    rw (e, leave) (rw (same, leave) (rw (lookup-remove id id hub.clients) (rw (eq_refl id) refl)))

leave-other :
    (hub : Hub) (id other : Text) (g : ℕ)
    → (other == id) ≡ false
    → lookup id (leave hub other g).clients ≡ lookup id hub.clients
unfolding leave
leave-other hub id other g ne = elim (Option-cases (lookup other hub.clients)) [
  | inl e ↦ rw (e, leave) refl
  | inr (c, e) ↦ elim (Bool-cases (nat_beq c.generation g)) [
    | inl same ↦
        rw (e, leave) (rw (same, leave) (rw (lookup-remove other id hub.clients) (rw ne refl)))
    | inr differs ↦ rw (e, leave) (rw (differs, leave) refl)
  ]
]

register-NewerThan :
    (g : ℕ) (id other : Text) (tx : ℕ) (hub : Hub)
    → NewerThan g id hub
    → NewerThan g id (register hub other tx)
unfolding next_generation
register-NewerThan g id other tx hub (c, e, lt) = elim (Bool-cases (other == id)) [
  | inl same ↦
      let o : other ≡ id = (eq_iff other id).0 same in
      (
        record { generation = c.generation + 1; tx = tx },
        rw o (register-same hub id tx (c.generation + 1) (next_generation-some hub id c e)),
        omega arith,
      )
  | inr differs ↦ (c, rw (register-lookup hub id other tx) (rw differs e), lt)
]

Stays-first :
    (id : Text) (e : Event) (es : List Event) → Stays id (e ∷ es) → Stays id (e ∷ []) × Stays id es
Stays-first id (Event.joins other tx) es s = (tt, s)
Stays-first id (Event.delivers other tx) es s = (tt, s)
Stays-first id (Event.relays from text) es s = (tt, s)
Stays-first id (Event.leaves other k) es s = ((s.0, tt), s.1)

generation-positive : (hub : Hub) (id : Text) → next_generation hub id - 1 < next_generation hub id
generation-positive hub id = elim (Option-cases (lookup id hub.clients)) [
  | inl e ↦ omega (arith, next_generation-none hub id e)
  | inr (c, e) ↦ omega (arith, next_generation-some hub id c e)
]

-- Once the last of two sessions of a client has ended, its generation is given again: the end of the
-- first session then removes the client that has joined anew.
pub leave-takes_newer :
    (hub : Hub) (id : Text) (tx1 tx2 tx3 : ℕ)
    → lookup id hub.clients ≡ none
    → let two = register (register hub id tx1) id tx2 in
      let rejoined = register (leave two id 2) id tx3 in
      (lookup id rejoined.clients ≡ some (record { generation = 1; tx = tx3 }))
      × (lookup id (leave rejoined id 1).clients ≡ none)
leave-takes_newer hub id tx1 tx2 tx3 absent =
    let one = register hub id tx1 in
    let two = register one id tx2 in
    let first = register-same hub id tx1 1 (next_generation-none hub id absent) in
    let second =
      register-same one id tx2 2
        (next_generation-some one id (record { generation = 1; tx = tx1 }) first) in
    let gone = leave-own two id 2 tx2 second in
    let found =
      register-same (leave two id 2) id tx3 1 (next_generation-none (leave two id 2) id gone) in
    (found, leave-own (register (leave two id 2) id tx3) id 1 tx3 found)

module _ (json : JsonCrate) where
  unfoldable pub happen : Hub → Event → Hub
  unfolding register deliver_pending relay leave
  happen hub (Event.joins id tx) = register hub id tx
  happen hub (Event.delivers id tx) = deliver_pending hub id tx
  happen hub (Event.relays from text) = relay json hub from text
  happen hub (Event.leaves id g) = leave hub id g

  unfoldable pub run : Hub → List Event → Hub
  unfolding happen
  run hub [] = hub
  run hub (e ∷ es) = run (happen hub e) es

  relay-clients : (hub : Hub) (from text : Text) → (relay json hub from text).clients ≡ hub.clients
  unfolding relay try_send buffer readdress
  relay-clients hub from text = elim (Option-cases (json.parse text)) [
    | inl e ↦ rw (e, relay) refl
    | inr (content, e) ↦ elim (Option-cases (lookup (json.id_of content) hub.clients)) [
      | inl f ↦ rw (e, relay) (rw (f, relay) refl)
      | inr (c, f) ↦ rw (e, relay) (rw (f, relay) refl)
    ]
  ]

  happen-NewerThan :
      (g : ℕ) (id : Text) (e : Event) (hub : Hub)
      → Stays id (e ∷ [])
      → NewerThan g id hub
      → NewerThan g id (happen hub e)
  unfolding happen
  happen-NewerThan g id (Event.joins other tx) hub s h = register-NewerThan g id other tx hub h
  happen-NewerThan g id (Event.delivers other tx) hub s h =
      rw (deliver_pending-clients hub other tx) h
  happen-NewerThan g id (Event.relays from text) hub s h = rw (relay-clients hub from text) h
  happen-NewerThan g id (Event.leaves other k) hub s h = rw (leave-other hub id other k s.0) h

  run-NewerThan :
      (g : ℕ) (id : Text) (es : List Event) (hub : Hub)
      → Stays id es
      → NewerThan g id hub
      → NewerThan g id (run hub es)
  unfolding run
  run-NewerThan g id [] hub s h = h
  run-NewerThan g id (e ∷ es) hub s h =
      let (now, later) = Stays-first id e es s in
      run-NewerThan g id es (happen hub e) later (happen-NewerThan g id e hub now h)

  -- After a client has joined once more, and whatever then happens but the end of one of its own
  -- sessions, the end of its older session changes nothing.
  pub leave-stale :
      (hub : Hub) (id : Text) (tx1 tx2 : ℕ) (between after : List Event)
      → Stays id between
      → Stays id after
      → let old = next_generation hub id in
        let later = run (register (run (register hub id tx1) between) id tx2) after in
        leave later id old ≡ later
  leave-stale hub id tx1 tx2 between after s t =
      let old = next_generation hub id in
      let (c, e, lt) = run-NewerThan (old - 1) id between (register hub id tx1) s (
        record { generation = old; tx = tx1 },
        register-same hub id tx1 old refl,
        generation-positive hub id,
      ) in
      let middle = run (register hub id tx1) between in
      let (d, found, newer) = run-NewerThan old id after (register middle id tx2) t (
        record { generation = c.generation + 1; tx = tx2 },
        register-same middle id tx2 (c.generation + 1) (next_generation-some middle id c e),
        omega arith,
      ) in
      leave-newer (run (register middle id tx2) after) id old d found newer
