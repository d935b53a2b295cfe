-- ===== src/Config.antt =====
-- utils/src/app_config.rs, the configuration and its validation, and `get_redis_address_and_port` and
-- `get_redis_url` of core/src/db.rs on a configuration that was fetched.
pub mod Valid
pub mod Address
use fogros2_sgc.Base.{
  ℕ, zero, suc, ◌+◌, ◌/◌, ◌%◌, Bool, true, false, not, ◌||◌, List, [], ◌∷◌, ◌++◌, if◌then◌else◌,
  ltb, nat_beq,
}
use fogros2_sgc.Text.{Text, ◌==◌, codes}
use fogros2_sgc.Base.Result.{err, ok, Result}

pub record Topic : Type 0 where
  pub name : Text
  pub topic_type : Text
  pub role : Text

pub record AppConfig : Type 0 where
  pub group_secret : Text
  pub signaling_server : Text
  pub routing_server : Text
  pub topics : List Topic

abbrev pub is_empty : Text → Bool
is_empty [] = true
is_empty (b ∷ bs) = false

-- `s.starts_with(..)`
unfoldable pub starts_with : Text → Text → Bool
starts_with [] s = true
starts_with (b ∷ bs) [] = false
starts_with (b ∷ bs) (c ∷ cs) = let rest = starts_with bs cs in if nat_beq b c then rest else false

-- `format!` of a `usize`: its decimal digits, the last first in `digits_from`.
unfoldable pub digits_from : ℕ → ℕ → Text → Text
digits_from zero n out = out
digits_from (suc fuel) n out =
    let rest = digits_from fuel (n / 10) ((b'0' + n % 10) ∷ out) in
    if ltb n 10 then (b'0' + n) ∷ out else rest

unfoldable pub show_usize : ℕ → Text
unfolding digits_from
show_usize n = digits_from 20 n []

-- One message if the test holds.
abbrev pub complain : Bool → Text → List Text
complain true msg = msg ∷ []
complain false msg = []

abbrev pub is_role : Text → Bool
is_role role = role == codes "publisher" || role == codes "subscriber" || role == codes "proxy"

abbrev pub has_scheme : Text → Bool
has_scheme s = starts_with (codes "ws://") s || starts_with (codes "wss://") s

-- The `else if` on the signaling server.
abbrev pub signaling_errors : Text → List Text
signaling_errors s =
    if is_empty s
    then codes "signaling_server cannot be empty" ∷ []
    else complain (not (has_scheme s))
        (codes "signaling_server must start with ws:// or wss://, got: " ++ s)

unfoldable pub topic_errors : ℕ → List Topic → List Text
unfolding show_usize
topic_errors i [] = []
topic_errors i (t ∷ ts) =
    complain (is_empty t.name) (codes "topics[" ++ (show_usize i ++ codes "].name cannot be empty"))
    ++ (complain (is_empty t.topic_type)
          (codes "topics[" ++ (show_usize i ++ codes "].type cannot be empty"))
        ++ (complain (not (is_role t.role)) (
              codes "topics["
              ++ (show_usize i
                  ++ (codes "].role must be 'publisher', 'subscriber', or 'proxy', got: '"
                      ++ (t.role ++ codes "'"))))
            ++ topic_errors (i + 1) ts))

abbrev pub config_errors : AppConfig → List Text
config_errors config =
    complain (is_empty config.group_secret) (codes "group_secret cannot be empty")
    ++ (signaling_errors config.signaling_server
        ++ (complain (is_empty config.routing_server) (codes "routing_server cannot be empty")
            ++ topic_errors 0 config.topics))

abbrev pub ok_if_none : List Text → Result (List Text) (Unit {0})
ok_if_none [] = ok tt
ok_if_none (e ∷ es) = err (e ∷ es)

unfoldable pub validate : AppConfig → Result (List Text) (Unit {0})
unfolding starts_with topic_errors
validate config = ok_if_none (config_errors config)

unfoldable pub get_redis_url : AppConfig → Text
get_redis_url config = codes "redis://" ++ config.routing_server
