-- ===== src/WebRtc/Guard.antt =====
-- An identifier is active exactly while its connection is set up or open.
use fogros2_sgc.Base.{
  ℕ, zero, suc, ◌+◌, ◌*◌, ◌^◌, ◌≡◌, refl, ◌∙◌, inl, inr, Bool, true, false, not, Option, List, [],
  ◌∷◌, ◌++◌, arith,
}
use fogros2_sgc.Text.{Text, ◌==◌, eq_refl}
use fogros2_sgc.WebRtc.{
  fetch_config, new_peer, open_stream, claim, establish, release, WebRtcError, dropped_on_error,
  duplicate_connection, register_webrtc_stream, retry_register, set_up, Network, Shared,
}
use fogros2_sgc.Base.Result.{Result-cases, Result, ok, err}
use fogros2_sgc.Text.Sets.{contains-append, contains-retain, contains}
use fogros2_sgc.Redis.{is_some}

abbrev pub is_ok : {E A : Type 0} → Result E A → Bool
is_ok (ok a) = true
is_ok (err e) = false

-- While this task waits, the others leave its identifier as it is.
pub record LeavesId (net : Network) (id : Text) : Type 0 where
  pub on_connect :
      (url : Text) (s : Shared net.World)
      → contains (net.connect_async url s).1.0 id ≡ contains s.0 id
  pub on_dial :
      (peer : net.Peer) (s : Shared net.World) → contains (net.dial peer s).1.0 id ≡ contains s.0 id
  pub on_accept :
      (peer : net.Peer) (s : Shared net.World)
      → contains (net.accept peer s).1.0 id ≡ contains s.0 id
  pub on_sleep :
      (ms : ℕ) (s : Shared net.World) → contains (net.sleep_ms ms s).0 id ≡ contains s.0 id

module _ (net : Network) (id : Text) (keeps : LeavesId net id) where
  open_stream-keeps :
      (initiator : Bool) (peer : net.Peer) (s : Shared net.World)
      → contains (open_stream net initiator peer s).1.0 id ≡ contains s.0 id
  unfolding open_stream
  open_stream-keeps true peer s = keeps.on_dial peer s
  open_stream-keeps false peer s = keeps.on_accept peer (net.sleep_ms 100 s) ∙ keeps.on_sleep 100 s

  set_up-keeps :
      (my_id : Text) (initiator : Bool) (s : Shared net.World)
      → contains (set_up net my_id initiator s).1.0 id ≡ contains s.0 id
  unfolding set_up fetch_config new_peer
  set_up-keeps my_id initiator s = elim (Result-cases (net.fetch s.1)) [
    | inr (x, e) ↦ rw (e, set_up) refl
    | inl (config, e) ↦ elim (Result-cases (net.new_peer s.1).0) [
      | inr (x, f) ↦ rw (e, set_up) (rw (f, set_up) refl)
      | inl (peer, f) ↦
          let s1 : Shared net.World = (s.0, (net.new_peer s.1).1) in
          let url = config.signaling_server ++ b'/' ∷ my_id in
          elim (Result-cases (net.connect_async url s1).0) [
            | inr (x, g) ↦
                rw (e, set_up) (rw (f, set_up) (rw (g, set_up) (keeps.on_connect url s1)))
            | inl (u, g) ↦
                rw (e, set_up)
                  (rw (f, set_up)
                    (rw (g, set_up)
                      (open_stream-keeps initiator peer (net.connect_async url s1).1
                        ∙ keeps.on_connect url s1)))
          ]
    ]
  ]

  contains-release : (ids : List Text) → contains (release ids id) id ≡ false
  unfolding release
  contains-release ids = contains-retain (λ i. not (i == id)) ids id ∙ ground (arith, eq_refl id)

  dropped_on_error-is_ok :
      (r : Result WebRtcError net.Stream × Shared net.World)
      → contains r.1.0 id ≡ true
      → contains (dropped_on_error net id r).1.0 id ≡ is_ok (dropped_on_error net id r).0
  unfolding dropped_on_error
  dropped_on_error-is_ok (ok stream, s) h = h
  dropped_on_error-is_ok (err e, s) h = contains-release s.0

  -- The identifier is active afterwards exactly if the call has given a stream, and an identifier that
  -- was active before is refused, and stays active.
  register-is_ok :
      (peer : Option Text) (s : Shared net.World)
      → (contains s.0 id ≡ false
          → contains (register_webrtc_stream net id peer s).1.0 id
            ≡ is_ok (register_webrtc_stream net id peer s).0)
        × (contains s.0 id ≡ true
            → register_webrtc_stream net id peer s ≡ (err (duplicate_connection id), s))
  unfolding register_webrtc_stream
  register-is_ok peer s = (
    λ free.
        rw (free, register_webrtc_stream)
          (dropped_on_error-is_ok (set_up net id (is_some peer) (claim s.0 id, s.1)) (
            set_up-keeps id (is_some peer) (claim s.0 id, s.1)
            ∙ unfold claim contains in
              ground (arith, contains-append s.0 (id ∷ []) id, eq_refl id))),
    λ taken. rw (taken, register_webrtc_stream) refl,
  )

  retry_register-is_ok :
      (peer : Option Text) (retries attempt : ℕ) (s : Shared net.World)
      → contains s.0 id ≡ false
      → contains (retry_register net id peer attempt retries s).1.0 id
        ≡ is_ok (retry_register net id peer attempt retries s).0
  unfolding retry_register
  retry_register-is_ok peer zero attempt s free = (register-is_ok peer s).0 free
  retry_register-is_ok peer (suc retries) attempt s free =
      let r = register_webrtc_stream net id peer s in
      let after = (register-is_ok peer s).0 free in
      elim (Result-cases r.0) [
        | inl (stream, e) ↦ rw (e, retry_register) (rw e at after)
        | inr (x, e) ↦
            rw (e, retry_register)
              (retry_register-is_ok peer retries (attempt + 1)
                (net.sleep_ms (500 * 2 ^ (attempt + 1)) r.1)
                (keeps.on_sleep (500 * 2 ^ (attempt + 1)) r.1 ∙ (rw e at after)))
      ]

  -- If an identifier is not active, and no other task touches it, then the attempts to establish its
  -- connection leave it active exactly if they have given a stream: no failed attempt leaves it behind.
  pub establish-is_ok :
      (peer : Option Text) (s : Shared net.World)
      → contains s.0 id ≡ false
      → contains (establish net id peer s).1.0 id ≡ is_ok (establish net id peer s).0
  unfolding establish
  establish-is_ok peer s free = retry_register-is_ok peer 2 0 s free
