-- ===== src/Commands/Reach.antt =====
-- What `check` of core/src/commands.rs asks of the signaling server and of Redis, command by command.
use fogros2_sgc.Base.{◌≡◌, refl, ap, ◌∙◌, ◌↔◌, inl, inr, List, ◌∷◌, List-cases}
use fogros2_sgc.Text.{Text}
use fogros2_sgc.Redis.{ping, connect, Env, test_redis_connection}
use fogros2_sgc.Commands.{Host, first_address, host_port, test_signaling_server}
use fogros2_sgc.Base.Exec.{map_error}
use fogros2_sgc.Base.Result.{ok, Result-cases}

module _ (env : Env) (host : Host env) where
  open env use {World}

  -- The server's name resolves, and its first address takes a connection within five seconds.
  pub record Takes (server : Text) (w : World) : Type 0 where
    pub first : host.Addr
    pub others : List host.Addr
    pub resolves : (host.to_socket_addrs (host_port server) w).0 ≡ ok (first ∷ others)
    pub connects :
        (host.connect_timeout first 5 (host.to_socket_addrs (host_port server) w).1).0 ≡ ok tt

  -- The world after that.
  abbrev pub connected_world : (server : Text) (w : World) → Takes server w → World
  connected_world server w t =
      (host.connect_timeout t.first 5 (host.to_socket_addrs (host_port server) w).1).1

  -- Redis takes a connection at the address and answers the ping.
  pub record Answers (url : Text) (w : World) : Type 0 where
    pub client : env.Client
    pub con : env.Conn
    pub pong : Text
    pub opens : env.open_client url ≡ ok client
    pub connects : (env.get_connection client w).0 ≡ ok con
    pub answers : (env.query Text con ping (env.get_connection client w).1).0 ≡ ok pong

  pub test_signaling_server-Takes :
      (server : Text) (w : World)
      → (test_signaling_server env host server w).0 ≡ ok tt
      → Takes server w
  unfolding test_signaling_server first_address
  test_signaling_server-Takes server w h =
      elim (Result-cases (host.to_socket_addrs (host_port server) w).0) [
        | inr (x, e) ↦ absurd (cc (rw e at h))
        | inl (addrs, e) ↦ elim (List-cases addrs) [
          | inl none_found ↦ absurd (cc (rw (e, none_found) at h))
          | inr (first, others, found) ↦ record {
            first = first;
            others = others;
            resolves = e ∙ ap ok found;
            connects = rw (e, found) at h;
          }
        ]
      ]

  pub Takes-test_signaling_server :
      (server : Text) (w : World) (t : Takes server w)
      → ((test_signaling_server env host server w).0 ≡ ok tt)
        × ((test_signaling_server env host server w).1 ≡ connected_world server w t)
  unfolding test_signaling_server first_address
  Takes-test_signaling_server server w t = (rw (t.resolves) (t.connects), rw (t.resolves) refl)

  pub test_redis_connection-Answers :
      (url : Text) (w : World)
      → ((map_error env.error_text (test_redis_connection env url) w).0 ≡ ok tt) ↔ Answers url w
  unfolding test_redis_connection connect
  test_redis_connection-Answers url w = (
    λ h. elim (Result-cases (env.open_client url)) [
      | inr (x, e) ↦ absurd (cc (rw e at h))
      | inl (client, e) ↦ elim (Result-cases (env.get_connection client w).0) [
        | inr (x, f) ↦ absurd (cc (rw (e, f) at h))
        | inl (con, f) ↦
            elim (Result-cases (env.query Text con ping (env.get_connection client w).1).0) [
              | inr (x, g) ↦ absurd (cc (rw (e, f, g) at h))
              | inl (pong, g) ↦ record {
                client = client;
                con = con;
                pong = pong;
                opens = e;
                connects = f;
                answers = g;
              }
            ]
      ]
    ],
    λ a. rw (a.opens) (rw (a.connects) (rw (a.answers) refl)),
  )
