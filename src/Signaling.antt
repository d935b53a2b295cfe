-- ===== src/Signaling.antt =====
-- signaling/src/main.rs, the connections: the registry of clients with their generations, and the
-- messages kept for clients that are not there yet. Each function is what runs under one lock, so
-- that the tasks of several clients interleave as sequences of these steps. The json crate is a
-- parameter; a channel is a number, and what is sent on the channels is a log. A send to a channel
-- whose receiver is gone is logged too: the source drops its result.
pub mod Cleanup
pub mod Sessions
pub mod Mail
pub mod Conserved
use fogros2_sgc.Base.{
  ℕ, ◌+◌, ◌-◌, ◌/◌, Bool, false, ◌&&◌, ◌||◌, Option, none, some, List, [], ◌∷◌, ◌++◌, if◌then◌else◌,
  nat_beq,
}
use fogros2_sgc.Text.{Text, ◌==◌, codes}
use fogros2_sgc.Text.Sets.{lookup, insert, remove}
use fogros2_sgc.Text.Parts.{split}

pub record Client : Type 0 where
  pub generation : ℕ
  pub tx : ℕ

pub record Hub : Type 0 where
  pub clients : List (Text × Client)
  pub pending : List (Text × List Text)
  pub sent : List (ℕ × Text)

-- `ClientMap::default()` and `PendingMessages::default()`
abbrev pub no_clients : Hub
no_clients = record { clients = []; pending = []; sent = [] }

-- `path.split('/').nth(1).unwrap_or("unknown")`
unfoldable pub client_id : Text → Text
unfolding split
client_id path = elim (split b'/' path) [
  | [] ↦ codes "unknown"
  | first ∷ rest ↦ elim rest [ [] ↦ codes "unknown" | id ∷ more ↦ id ]
]

-- `c.generation + 1`, or 1 for a client that is not there; `u64` is not reached.
unfoldable pub next_generation : Hub → Text → ℕ
unfolding lookup
next_generation hub id = elim (lookup id hub.clients) [ none ↦ 1 | some c ↦ c.generation + 1 ]

-- The new client replaces one of the same name.
unfoldable pub register : Hub → Text → ℕ → Hub
unfolding next_generation insert
register hub id tx = record hub {
  clients = insert id (record { generation = next_generation hub id; tx = tx }) hub.clients;
}

abbrev pub send_all : ℕ → List Text → List (ℕ × Text)
send_all tx [] = []
send_all tx (msg ∷ msgs) = (tx, msg) ∷ send_all tx msgs

-- The messages kept for the client go to its channel, in order.
unfoldable pub deliver_pending : Hub → Text → ℕ → Hub
unfolding lookup remove
deliver_pending hub id tx = elim (lookup id hub.pending) [
  | none ↦ hub
  | some msgs ↦ record hub { pending = remove id hub.pending; sent = hub.sent ++ send_all tx msgs }
]

-- `json::parse`, `content["id"].to_string()`, `content.insert("id", ..)` and `json::stringify`.
pub record JsonCrate : Type 1 where
  pub Content : Type 0
  pub parse : Text → Option Content
  pub id_of : Content → Text
  pub with_id : Text → Content → Content
  pub stringify : Content → Text

-- What a text from a client asks for: the target and the message to send it.
unfoldable pub readdress : JsonCrate → Text → Text → Option (Text × Text)
readdress json from text = elim (json.parse text) [
  | none ↦ none
  | some content ↦ some (json.id_of content, json.stringify (json.with_id from content))
]

-- Under the lock of the clients: send, or find that the target is not there.
unfoldable pub try_send : Hub → Text → Text → Option Hub
unfolding lookup
try_send hub target msg = elim (lookup target hub.clients) [
  | none ↦ none
  | some c ↦ some (record hub { sent = hub.sent ++ (c.tx, msg) ∷ [] })
]

abbrev pub kept_for : Hub → Text → List Text
kept_for hub id = elim (lookup id hub.pending) [ none ↦ [] | some msgs ↦ msgs ]

-- Under the lock of the pending messages, after the other is released.
unfoldable pub buffer : Hub → Text → Text → Hub
unfolding lookup insert
buffer hub target msg = record hub {
  pending = insert target (kept_for hub target ++ msg ∷ []) hub.pending;
}

-- Both steps of the relay, with nothing between them.
unfoldable pub relay : JsonCrate → Hub → Text → Text → Hub
unfolding readdress try_send buffer
relay json hub from text = elim (readdress json from text) [
  | none ↦ hub
  | some (target, msg) ↦ elim (try_send hub target msg) [
    | some hub' ↦ hub'
    | none ↦ buffer hub target msg
  ]
]

-- The cleanup: the client is removed if it is still the one of this session.
unfoldable pub leave : Hub → Text → ℕ → Hub
unfolding lookup remove
leave hub id my_generation = elim (lookup id hub.clients) [
  | none ↦ hub
  | some c ↦
      if nat_beq c.generation my_generation
      then record hub { clients = remove id hub.clients }
      else hub
]

-- `{topic_gdp}-{self_node}-{peer_node}`: the topic and the node, if there are three parts.
abbrev pub first_two : List Text → Option (Text × Text)
first_two (topic ∷ node ∷ peer ∷ []) = some (topic, node)
first_two _ = none

unfoldable pub parse_client_id : Text → Option (Text × Text)
unfolding split
parse_client_id id = first_two (split b'-' id)

abbrev pub is_of : Text → Text → Option (Text × Text) → Bool
is_of topic node none = false
is_of topic node (some (t, n)) = t == topic && n == node

-- Whether any client of the node is there: then no cleanup follows.
unfoldable pub still_connected : List (Text × Client) → Text → Text → Bool
unfolding parse_client_id
still_connected [] topic node = false
still_connected (entry ∷ entries) topic node =
    is_of topic node (parse_client_id entry.0) || still_connected entries topic node
