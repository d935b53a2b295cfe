-- ===== src/Tests/Signaling.antt =====
-- The signaling server with a few clients, and its cleanup on a server with one client.
use fogros2_sgc.Base.{
  ◌≡◌, refl, sym, subst, ◌∙◌, ◌↔◌, true, false, not, ◌&&◌, none, some, [], ◌∷◌, ◌++◌,
}
use fogros2_sgc.Text.{Text, ◌==◌, codes}
use fogros2_sgc.Signaling.{
  buffer, client_id, kept_for, parse_client_id, send_all, try_send, JsonCrate, no_clients, register,
  leave, next_generation,
}
use fogros2_sgc.Tests.Coder.{stored_codec, stored_codec-ReadsStored}
use fogros2_sgc.Signaling.Cleanup.Safe.{
  GoodStored, disconnect_node-holds, some-injective, read_stored-nil,
}
use fogros2_sgc.Tests.Server.{lone-holds, lone_rely, lone_server}
use fogros2_sgc.Routing.Tree.Valid.{IsValid, blank-IsValid}
use fogros2_sgc.Redis.Rely.{Rely}
use fogros2_sgc.Signaling.Sessions.{run, Event, leave-stale, leave-takes_newer}
use fogros2_sgc.Signaling.Cleanup.Pruned.{core_view, prune_iff}
use fogros2_sgc.Signaling.Cleanup.{prune, Stored, disconnect_node}
use fogros2_sgc.Signaling.Mail.{arrive, arrive-delivers, relay_race}
use fogros2_sgc.Routing.Bfs.Walk.{Walk}
use fogros2_sgc.Routing.{joined}
use fogros2_sgc.Text.Sets.{lookup, contains}

-- Messages that are their own target.
abbrev plain_json : JsonCrate
plain_json = record {
  Content = Text;
  parse = λ s. some s;
  id_of = λ s. s;
  with_id = λ id s. s;
  stringify = λ s. s;
}

abbrev alice : Text
alice = codes "01-02-03"

abbrev bob : Text
bob = codes "01-03-02"

alice-bob : (alice == bob) ≡ false
unfolding ◌==◌
alice-bob = refl

leave-stale_example :
    let first = register no_clients alice 0 in
    let second =
      register (run plain_json first (Event.joins bob 1 ∷ Event.leaves bob 1 ∷ [])) alice 2 in
    let later = run plain_json second (Event.relays bob alice ∷ []) in
    leave later alice (next_generation no_clients alice) ≡ later
unfolding ◌==◌
leave-stale_example =
    leave-stale plain_json no_clients alice 0 2 (Event.joins bob 1 ∷ Event.leaves bob 1 ∷ [])
      (Event.relays bob alice ∷ []) (refl, tt) tt

leave-takes_newer_example :
    let two = register (register no_clients alice 0) alice 1 in
    let rejoined = register (leave two alice 2) alice 2 in
    (lookup alice rejoined.clients ≡ some (record { generation = 1; tx = 2 }))
    × (lookup alice (leave rejoined alice 1).clients ≡ none)
unfolding lookup
leave-takes_newer_example = leave-takes_newer no_clients alice 0 1 2 refl

arrive-delivers_example :
    let hub' =
      arrive (buffer (buffer no_clients alice (codes "offer")) alice (codes "ice")) alice 4 in
    (hub'.sent
      ≡ no_clients.sent
        ++ send_all 4 (kept_for no_clients alice ++ codes "offer" ∷ codes "ice" ∷ []))
    × (lookup alice hub'.pending ≡ none)
    × ((other : Text)
        → (alice == other) ≡ false
        → lookup other hub'.pending ≡ lookup other no_clients.pending)
arrive-delivers_example = arrive-delivers no_clients alice (codes "offer") (codes "ice") 4

relay_race_example :
    let hub' = buffer (arrive no_clients alice 4) alice (codes "offer") in
    (try_send no_clients alice (codes "offer") ≡ none)
    × (lookup alice hub'.clients ≡ some (record { generation = 1; tx = 4 }))
    × (hub'.sent ≡ no_clients.sent)
    × (lookup alice hub'.pending ≡ some (codes "offer" ∷ []))
unfolding lookup
relay_race_example = relay_race no_clients alice (codes "offer") 4 refl refl

ids :
    (parse_client_id alice ≡ some (codes "01", codes "02")) × (client_id (codes "/a/b") ≡ codes "a")
unfolding parse_client_id client_id
ids = (refl, refl)

abbrev stored : Stored
stored = record {
  publishers = codes "a" ∷ [];
  proxies = codes "b" ∷ [];
  edges =
      record { parent = codes "a"; child = codes "b" }
      ∷ record { parent = codes "b"; child = codes "c" }
      ∷ [];
}

prune_iff_example :
    ((p c : Text)
      → (joined (prune stored (codes "b")).edges p c ≡ true) ↔ (
          (joined stored.edges p c ≡ true)
          × ¬ Walk (λ v. true) stored.edges (codes "b") p
          × ¬ Walk (λ v. true) stored.edges (codes "b") c))
    × ((v : Text)
        → contains (prune stored (codes "b")).proxies v
          ≡ (not (v == codes "b") && contains stored.proxies v))
    × ((v : Text)
        → contains (prune stored (codes "b")).publishers v
          ≡ (not (v == codes "b") && contains stored.publishers v))
prune_iff_example = prune_iff stored (codes "b")

pruned : prune stored (codes "b") ≡ record { publishers = codes "a" ∷ []; proxies = []; edges = [] }
unfolding prune ◌==◌
pruned = refl

abbrev key : Text
key = codes "01" ++ codes "-routing"

abbrev stored_rely : Rely lone_server (GoodStored stored_codec 3 key)
stored_rely = lone_rely (GoodStored stored_codec 3 key)

nothing_stored : stored_rely.holds []
unfolding lookup
nothing_stored = lone-holds (GoodStored stored_codec 3 key) [] (λ k e st r.
    subst (λ s. IsValid 3 (core_view s))
      (some-injective _ st (sym (read_stored-nil stored_codec) ∙ r)) (blank-IsValid 3))

disconnect_node-holds_example :
    stored_rely.holds
      (disconnect_node lone_server stored_codec (codes "redis://rib") (codes "01") (codes "02") [])
disconnect_node-holds_example =
    disconnect_node-holds lone_server stored_codec 3 (codes "redis://rib") (codes "01") (codes "02")
      stored_codec-ReadsStored stored_rely [] nothing_stored
