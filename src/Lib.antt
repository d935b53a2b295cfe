-- ===== src/Lib.antt =====
-- FogROS2-SGC: routing trees of ROS topics, kept in Redis, and the framing of their packets.
--
-- The program joins ROS nodes on several machines. For each topic a tree of publishers, proxies and
-- listeners is one JSON value of a Redis server, under the key `{topic}-routing`. Nodes change it by
-- compare-and-swap (core/src/routing.rs over core/src/db.rs); each watches the key and opens a
-- WebRTC data channel per edge that involves it, over which packets are framed
-- (core/src/network/webrtc.rs). The peers find each other through a signaling server
-- (signaling/src/main.rs). The commands `init`, `check`, `router` and `config` start and test a node.
--
-- Files:
--   Base        shared names: lists, Boolean tests, results, actions that pass on a world.
--   Text        texts as their UTF-8 bytes; sets and maps of texts; split, trim, from_utf8 of std.
--   Name        `GDPName`, `Connection` of core/src/structs.rs, core/src/connection_store.rs.
--   Redis       core/src/db.rs. The server, the clock and the environment's variables are the record
--               `Env`, a parameter: a command changes an abstract world, so other clients may act
--               between any two commands. Redis/Rely says what a client may assume of them;
--               Redis/Watch is the watcher of a key.
--   Routing     core/src/routing.rs: the state and its operations; Children the maps of children;
--               Bfs the breadth-first loops; Fanout `fanout`; Tree the changes of `subscribe` and
--               `disconnect` to a state; Update the compare-and-swap loops; Update/Subscribe the two
--               passes of `subscribe`.
--   Packet      `GDPPacket` of core/src/structs.rs, the writer and `PacketParser` of
--               core/src/network/webrtc.rs, core/src/pipeline.rs.
--               Packet/Forward the loops of core/src/network/ros.rs.
--   WebRtc      core/src/network/webrtc.rs: the guard of an identifier, the set-up of a stream and
--               its retries; WebRtc/Relay the two tasks that carry signaling messages; WebRtc/Channel
--               the loop that forwards. An event is one turn of a loop.
--   Topics      core/src/topic_manager.rs: the pass over the edges, the handlers, the roles;
--               Topics/Loop the loop over the changes, with its specification in Loop/Follows;
--               Topics/Discovery the start of the configured topics, Topics/Roles what it registers.
--   Signaling   signaling/src/main.rs: the clients and their messages as steps under one lock each;
--               Signaling/Cleanup `disconnect_node` and the debounced task that calls it.
--   Config      utils/src/app_config.rs: the configuration and its validation; Config/Address the
--               address of the routing server (core/src/db.rs).
--   Commands    core/src/commands.rs over a `Host`: files, sockets, random bytes and the loading of
--               the configuration; Commands/Start cli/src/lib.rs and src/main.rs.
--   Tests       a server with one client, codecs, and the theorems at concrete inputs.
--
-- A theorem named `f-holds` is about every `holds` of a `Rely`: a property of the world under which
-- a value read is good, and which each command keeps if the values it writes are good. Good means
-- here that the value of the topic's key parses to a valid state: no publisher, proxy or edge twice,
-- and no node with more children than the fanout.
--
-- A theorem about a `view` is about states up to the order of their edges and their time stamps, the
-- quotient of Routing/Tree/Converge.
--
-- Bounds and fuel: the breadth-first loops have one round more than there are edges, which is enough
-- (Routing/Bfs/Fuel); the loop of `feed` has two turns per byte and two more, which is enough; the
-- loops of compare-and-swap are bounded in the source, and so are the attempts to connect; a text is
-- trimmed of a prefix at most as often as it has bytes. Bytes are numbers, below 256 where
-- it matters; `usize` and `u8` are parsed with their overflow; `i64` time stamps are integers.
--
-- Parameters: the redis crate, serde_json (what is used of it is that it reads back what it wrote),
-- the json crate, the clock and the environment. A `HashMap` is a list of entries read through
-- `lookup`. Where a `HashSet` is walked (Topics), the order is a parameter.
--
-- Not modelled: log lines and what is only printed, the WebRTC, WebSocket and ROS libraries (their
-- calls are parameters), argument parsing, the loading and merging of configuration files, the debug
-- signals of core/src/network/ros.rs, the conversions of library errors in utils/src/error.rs, and
-- the sources of random names.
pub mod Base
pub mod Commands
pub mod Config
pub mod Name
pub mod Packet
pub mod Redis
pub mod Routing
pub mod Signaling
pub mod Tests
pub mod Text
pub mod Topics
pub mod WebRtc
