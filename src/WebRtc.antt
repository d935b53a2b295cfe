-- ===== src/WebRtc.antt =====
-- core/src/network/webrtc.rs, `register_webrtc_stream` with the set of active identifiers and its
-- guard, and the loop of `establish_connection` of core/src/topic_manager.rs around it. The crates for
-- data channels and WebSockets are a parameter; each of their calls that awaits may also change the set
-- of identifiers, since other tasks run meanwhile. A guard that is dropped on an error is a release.
pub mod Guard
pub mod Relay
pub mod Channel
use fogros2_sgc.Base.{
  ℕ, zero, suc, ◌+◌, ◌*◌, ◌/◌, ◌^◌, Bool, true, false, not, Option, List, [], ◌∷◌, ◌++◌, retain,
}
use fogros2_sgc.Text.{Text, ◌==◌, codes}
use fogros2_sgc.Base.Exec.{◌>>=◌, ◌>>◌, Exec, lift, map_error}
use fogros2_sgc.Base.Result.{Result, ok, err}
use fogros2_sgc.Config.{AppConfig}
use fogros2_sgc.Text.Sets.{contains}
use fogros2_sgc.Redis.{is_some}

pub data WebRtcError : Type 0 where
  config_error peer_connection_failed signaling_connection_failed data_channel_failed
        duplicate_connection :
      Text → WebRtcError

-- `Display`
unfoldable pub show_error : WebRtcError → Text
show_error (config_error e) = codes "Config error: " ++ e
show_error (peer_connection_failed e) = codes "PeerConnection failed: " ++ e
show_error (signaling_connection_failed e) = codes "Signaling connection failed: " ++ e
show_error (data_channel_failed e) = codes "Data channel failed: " ++ e
show_error (duplicate_connection id) = codes "Duplicate connection attempt for " ++ id

-- The active identifiers, and the rest of the world.
abbrev pub Shared : Type 0 → Type 0
Shared W = List Text × W

-- What the crates do; an error is its text.
pub record Network : Type 1 where
  pub World : Type 0
  pub Peer : Type 0
  pub Stream : Type 0
  pub fetch : World → Result Text AppConfig
  pub new_peer : World → Result Text Peer × World
  pub connect_async : Text → Exec (Shared World) Text (Unit {0})
  pub dial : Peer → Exec (Shared World) Text Stream
  pub accept : Peer → Exec (Shared World) Text Stream
  pub sleep_ms : ℕ → Shared World → Shared World

-- `insert`
unfoldable pub claim : List Text → Text → List Text
claim ids id = ids ++ id ∷ []

-- `Drop for WebRtcGuard`
unfoldable pub release : List Text → Text → List Text
unfolding retain
release ids id = retain (λ i. not (i == id)) ids

module _ (net : Network) where
  open net use {World, Stream}

  abbrev pub Waits : Type 0 → Type 0
  Waits A = Exec (Shared World) WebRtcError A

  fetch_config : Waits AppConfig
  fetch_config s = map_error config_error (lift (net.fetch s.1)) s

  new_peer : Waits net.Peer
  new_peer s = let (r, w) = net.new_peer s.1 in map_error peer_connection_failed (lift r) (s.0, w)

  -- The initiator dials, the responder accepts.
  open_stream : Bool → net.Peer → Waits Stream
  open_stream true peer s =
      map_error (λ e. data_channel_failed (codes "dial: " ++ e)) (net.dial peer) s
  open_stream false peer s =
      map_error (λ e. data_channel_failed (codes "accept: " ++ e)) (net.accept peer)
        (net.sleep_ms 100 s)

  -- What is done under the guard.
  unfoldable pub set_up : Text → Bool → Waits Stream
  unfolding fetch_config new_peer open_stream
  set_up my_id is_initiator = do
    config ← fetch_config
    peer ← new_peer
    map_error signaling_connection_failed
        (net.connect_async (config.signaling_server ++ b'/' ∷ my_id))
    open_stream is_initiator peer

  -- An error drops the guard.
  unfoldable pub dropped_on_error :
      Text → Result WebRtcError Stream × Shared World → Result WebRtcError Stream × Shared World
  unfolding release
  dropped_on_error my_id (ok stream, s) = (ok stream, s)
  dropped_on_error my_id (err e, s) = (err e, (release s.0 my_id, s.1))

  unfoldable pub register_webrtc_stream : Text → Option Text → Waits Stream
  unfolding contains claim set_up dropped_on_error
  register_webrtc_stream my_id peer_to_dial s = elim (contains s.0 my_id) [
    | true ↦ (err (duplicate_connection my_id), s)
    | false ↦ dropped_on_error my_id (set_up my_id (is_some peer_to_dial) (claim s.0 my_id, s.1))
  ]

  -- The loop of the task that `establish_connection` starts, with the attempts made so far and those
  -- that may follow.
  unfoldable pub retry_register : Text → Option Text → ℕ → ℕ → Waits Stream
  unfolding register_webrtc_stream
  retry_register my_id peer attempt zero s = register_webrtc_stream my_id peer s
  retry_register my_id peer attempt (suc retries) s =
      let (r, s') = register_webrtc_stream my_id peer s in
      elim r [
        | ok stream ↦ (ok stream, s')
        | err e ↦
            retry_register my_id peer (attempt + 1) retries
              (net.sleep_ms (500 * 2 ^ (attempt + 1)) s')
      ]

  unfoldable pub establish : Text → Option Text → Waits Stream
  unfolding retry_register
  establish my_id peer = retry_register my_id peer 0 2
