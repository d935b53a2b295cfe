-- ===== src/Tests/Converge.antt =====
-- What becomes the same whatever the order: disconnects, cleanups, and the messages of the hub.
use fogros2_sgc.Base.{ℕ, ◌≡◌, refl, none, some, List, [], ◌∷◌, if◌then◌else◌, nat_beq}
use fogros2_sgc.Text.{Text, ◌==◌, codes}
use mathlib.Core.Quot.{Quot}
use fogros2_sgc.Tests.Server.{lone_server}
use fogros2_sgc.Tests.Coder.{stored_codec}
use fogros2_sgc.Routing.{RoutingState}
use fogros2_sgc.Routing.Tree.Converge.{TreeView, detach_view, detach_view-order}
use fogros2_sgc.Signaling.Cleanup.Converge.{cleaned_view, cleaned_view-order}
use fogros2_sgc.Signaling.Conserved.{asked, held, hub_conserves}
use fogros2_sgc.Signaling.Cleanup.Debounce.{end_session, end_session-spares}
use fogros2_sgc.Signaling.{JsonCrate, Hub, no_clients, register, leave, parse_client_id}
use fogros2_sgc.Signaling.Sessions.{Event, run}
use fogros2_sgc.Config.{is_empty}
use fogros2_sgc.Text.Sets.{lookup}

abbrev chain : RoutingState
chain = record {
  publishers = codes "a" ∷ [];
  proxies = codes "b" ∷ [];
  edges =
      record { parent = codes "a"; child = codes "b" }
      ∷ record { parent = codes "b"; child = codes "c" }
      ∷ [];
  attach_ms = [];
}

abbrev tree : TreeView
tree = Quot.mk chain

detach_view-order_example :
    (detach_view (codes "b") (detach_view (codes "c") tree)
      ≡ detach_view (codes "c") (detach_view (codes "b") tree))
    × (detach_view (codes "b") (detach_view (codes "b") tree) ≡ detach_view (codes "b") tree)
detach_view-order_example = detach_view-order (codes "b") (codes "c") tree

cleaned_view-order_example :
    (cleaned_view (codes "b") (detach_view (codes "c") tree)
      ≡ detach_view (codes "c") (cleaned_view (codes "b") tree))
    × (detach_view (codes "b") (cleaned_view (codes "b") tree) ≡ cleaned_view (codes "b") tree)
cleaned_view-order_example = cleaned_view-order (codes "b") (codes "c") tree

-- A text is its own target.
abbrev echo_json : JsonCrate
echo_json = record {
  Content = Text;
  parse = λ s. if is_empty s then none else some s;
  id_of = λ s. s;
  with_id = λ id s. s;
  stringify = λ s. s;
}

abbrev ann : Text
ann = codes "01-02-03"

abbrev chat : List Event
chat =
    Event.joins ann 0
    ∷ Event.relays ann (codes "bob")
    ∷ Event.relays ann []
    ∷ Event.joins (codes "bob") 1
    ∷ Event.delivers (codes "bob") 1
    ∷ Event.relays ann ann
    ∷ Event.leaves ann 1
    ∷ []

abbrev owner : ℕ → Text
owner tx = if nat_beq tx 1 then codes "bob" else ann

hub_conserves_example :
    held owner (codes "bob") (codes "bob") (run echo_json no_clients chat)
    ≡ asked echo_json (codes "bob") (codes "bob") chat
hub_conserves_example =
    hub_conserves echo_json owner chat (refl, (refl, (refl, tt))) (codes "bob") (codes "bob")

asked_once : asked echo_json (codes "bob") (codes "bob") chat ≡ 1
unfolding ◌==◌
asked_once = refl

-- Ann is back before the debounce is over.
abbrev ann_returns : Hub × lone_server.World → Hub × lone_server.World
ann_returns (hub, w) = (register hub ann 7, w)

end_session-spares_example :
    end_session lone_server stored_codec
      (codes "redis://rib")
      ann_returns
      (register no_clients ann 0)
      ann
      1
      []
    ≡ ann_returns (leave (register no_clients ann 0) ann 1, [])
unfolding leave register lookup parse_client_id ◌==◌
end_session-spares_example =
    end_session-spares lone_server stored_codec (codes "redis://rib") ann_returns
      (register no_clients ann 0) ann ann (codes "01") (codes "02") 1
      (record { generation = 1; tx = 7 }) [] refl refl refl
