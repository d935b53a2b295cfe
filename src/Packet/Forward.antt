-- ===== src/Packet/Forward.antt =====
-- core/src/network/ros.rs, the loops of the two forwarders between ROS and the network, and a message's
-- whole way: framed by the writer, found by the parser, filtered by the reader, published. The name of
-- the topic is an argument; the debug signals and the failure of a publish, which are only logged, are
-- left out, and so is a closed channel.
use fogros2_sgc.Base.{
  ◌≡◌, refl, ap, Bool, true, false, ◌&&◌, none, some, List, [], ◌∷◌, ◌++◌, map, if◌then◌else◌,
}
use fogros2_sgc.Text.{Text}
use fogros2_sgc.Packet.{
  new, flat, Json, feed_all, get_header, GdpPacket, construct_gdp_forward_from_bytes, to_ros,
  is_forward,
}
use fogros2_sgc.Name.RoundTrip.{name_eq_iff}
use mathlib.Core.List.{append-nil}
use fogros2_sgc.Packet.RoundTrip.{stream, IsJson, feed_all-stream, found_packet}
use fogros2_sgc.Name.{GdpName, name_eq}

-- `mark_node_received_data(my_gdp_name)` and `publisher.publish(payload)`
pub data RosEvent : Type 0 where
  marks : GdpName → RosEvent
  publishes : Text → RosEvent

-- The packets that `ros_to_network_forwarder` sends for the messages.
unfoldable pub ros_to_network : GdpName → GdpName → List Text → List GdpPacket
unfolding construct_gdp_forward_from_bytes
ros_to_network topic node = map (construct_gdp_forward_from_bytes topic node)

-- The loop of `network_to_ros_forwarder`; the flag is `marked_received`.
unfoldable pub network_to_ros : GdpName → GdpName → Bool → List GdpPacket → List RosEvent
unfolding name_eq
network_to_ros topic me marked [] = []
network_to_ros topic me marked (packet ∷ packets) =
    let skipped = network_to_ros topic me marked packets in
    let later = network_to_ros topic me true packets in
    if is_forward packet.action && name_eq packet.gdpname topic
    then elim packet.payload [
      | none ↦ skipped
      | some payload ↦ (if marked then [] else marks me ∷ []) ++ publishes payload ∷ later
    ]
    else skipped

-- What is to happen: one mark before the first message.
abbrev pub all_published : GdpName → List Text → List RosEvent
all_published me [] = []
all_published me (msg ∷ msgs) = marks me ∷ publishes msg ∷ map publishes msgs

network_to_ros-marked :
    (topic node me : GdpName) (msgs : List Text)
    → network_to_ros topic me true (ros_to_network topic node msgs) ≡ map publishes msgs
unfolding network_to_ros ros_to_network construct_gdp_forward_from_bytes
network_to_ros-marked topic node me [] = refl
network_to_ros-marked topic node me (msg ∷ msgs) =
    rw ((name_eq_iff topic topic).1 refl)
      (ap (◌∷◌ (publishes msg)) (network_to_ros-marked topic node me msgs))

network_to_ros-all :
    (topic node me : GdpName) (msgs : List Text)
    → network_to_ros topic me false (ros_to_network topic node msgs) ≡ all_published me msgs
unfolding network_to_ros ros_to_network construct_gdp_forward_from_bytes
network_to_ros-all topic node me [] = refl
network_to_ros-all topic node me (msg ∷ msgs) =
    rw ((name_eq_iff topic topic).1 refl)
      (ap (λ es. marks me ∷ publishes msg ∷ es) (network_to_ros-marked topic node me msgs))

to_ros-found :
    (json : Json) (good : IsJson json) (topic node thread_name : GdpName) (msgs : List Text)
    → to_ros thread_name (map (found_packet json good) (ros_to_network topic node msgs))
      ≡ ros_to_network topic thread_name msgs
unfolding to_ros ros_to_network construct_gdp_forward_from_bytes get_header
to_ros-found json good topic node thread_name [] = refl
to_ros-found json good topic node thread_name (msg ∷ msgs) = rw (append-nil msg) (
    ap (◌∷◌ (construct_gdp_forward_from_bytes topic thread_name msg))
      (to_ros-found json good topic node thread_name msgs))

-- The messages of a topic that one node sends to another over a data channel, in whatever pieces the
-- bytes arrive, are published by the other unchanged, all of them and in order, after the node was
-- marked once; if headers are written as UTF-8 without a null byte and read back.
pub messages_published :
    (json : Json) (good : IsJson json) (topic node thread_name me : GdpName) (msgs : List Text)
    (pieces : List Text)
    → flat pieces ≡ stream json good (ros_to_network topic node msgs)
    → network_to_ros topic me false (to_ros thread_name (feed_all json new pieces).1)
      ≡ all_published me msgs
messages_published json good topic node thread_name me msgs pieces e =
    rw
      (
        (feed_all-stream json good (ros_to_network topic node msgs) pieces e).0,
        to_ros-found json good topic node thread_name msgs,
      )
      (network_to_ros-all topic thread_name me msgs)
