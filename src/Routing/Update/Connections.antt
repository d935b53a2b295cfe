-- ===== src/Routing/Update/Connections.antt =====
-- What the topic manager reads from the routing state.
use fogros2_sgc.Base.{◌≡◌, refl, ap, List, [], ◌∷◌, map}
use fogros2_sgc.Routing.{Edge}
use fogros2_sgc.Name.{Connection, IsBytes, show_connection, show_name}
use fogros2_sgc.Routing.Update.{edge_connections}
use fogros2_sgc.Name.RoundTrip.{connection_from_str-show}

abbrev pub as_edge : Connection → Edge
as_edge c = record { parent = show_name c.publisher; child = show_name c.subscriber }

abbrev pub AllBytes : List Connection → Type 0
AllBytes [] = Unit {0}
AllBytes (c ∷ cs) = IsBytes c.publisher × IsBytes c.subscriber × AllBytes cs

-- From edges that were made of names of four bytes, the loop of `current_connections` reads their
-- connections, all of them and in order.
pub edge_connections-as_edge :
    (cs : List Connection) → AllBytes cs → edge_connections (map as_edge cs) ≡ cs
unfolding edge_connections show_connection
edge_connections-as_edge [] h = refl
edge_connections-as_edge (c ∷ cs) h =
    rw (connection_from_str-show c h.0 h.1, edge_connections)
      (ap (◌∷◌ c) (edge_connections-as_edge cs h.2))
