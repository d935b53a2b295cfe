-- ===== src/Tests/Config.antt =====
-- The validation of configurations.
use fogros2_sgc.Base.{◌≡◌, refl, ◌↔◌, [], ◌∷◌, arith}
use fogros2_sgc.Text.{Text, ◌==◌, codes}
use fogros2_sgc.Config.{show_usize, AppConfig, validate}
use fogros2_sgc.Config.Valid.{IsAccepted, validate_iff}
use fogros2_sgc.Base.Result.{err, ok}
use fogros2_sgc.Config.Address.{
  accepted_without_port, address-printed, get_redis_address_and_port, missing_port,
}

abbrev with_role : Text → AppConfig
with_role role = record {
  group_secret = codes "test";
  signaling_server = codes "ws://localhost:8000";
  routing_server = codes "localhost:6379";
  topics =
      record { name = codes "/test"; topic_type = codes "std_msgs/msg/String"; role = role } ∷ [];
}

validate_iff_example :
    (validate (with_role (codes "proxy")) ≡ ok tt) ↔ IsAccepted (with_role (codes "proxy"))
validate_iff_example = validate_iff (with_role (codes "proxy"))

bad_role :
    validate (with_role (codes "invalid"))
    ≡ err
        (codes "topics[0].role must be 'publisher', 'subscriber', or 'proxy', got: 'invalid'" ∷ [])
unfolding validate show_usize ◌==◌
bad_role = refl

address-printed_example :
    get_redis_address_and_port (record (with_role []) { routing_server = codes "a.b:6379" })
    ≡ ok (codes "a.b", 6379)
unfolding show_usize
address-printed_example =
    address-printed (record (with_role []) { routing_server = codes "a.b:6379" }) (codes "a.b") 6379
      (refl, (refl, (refl, tt))) (omega arith) refl

abbrev without_port : AppConfig
without_port = record (with_role (codes "proxy")) { routing_server = codes "a.b" }

accepted_without_port_example :
    (validate without_port ≡ ok tt)
    × (get_redis_address_and_port without_port ≡ err (missing_port (codes "a.b")))
unfolding validate ◌==◌
accepted_without_port_example =
    accepted_without_port without_port ((validate_iff without_port).0 refl)
      (refl, (refl, (refl, tt)))
