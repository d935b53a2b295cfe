-- ===== src/Commands.antt =====
-- core/src/commands.rs, the commands of the program. Files, name resolution, sockets, random bytes and
-- the loading of the configuration are a parameter over the world of the Redis model. What is only
-- printed is left out, but the errors and warnings of `check` are a result.
pub mod Start
pub mod Reach
pub mod Check
pub mod Init
pub mod Dial
use fogros2_sgc.Base.{ℕ, ◌+◌, ◌/◌, Bool, true, false, not, List, [], ◌∷◌, ◌++◌, if◌then◌else◌, leb}
use fogros2_sgc.Text.{Text, codes}
use fogros2_sgc.Redis.{Env, test_redis_connection}
use fogros2_sgc.Base.Exec.{raise, Exec, map_error, ◌>>=◌, ◌>>◌}
use fogros2_sgc.Config.{validate, get_redis_url, AppConfig, show_usize}
use fogros2_sgc.Base.Result.{err, ok, Result}
use fogros2_sgc.Text.Parts.{split}
use fogros2_sgc.Text.Trim.{trim_start_matches, has_char}

-- How a command ends. `serves` is the router that has come up: it does not return.
pub data Ending : Type 0 where
  returns panics serves : Ending
  exits : ℕ → Ending
  fails : Text → Ending

-- What the operating system and the libraries do; an error is its text. `create` truncates the file
-- that `write_all` writes.
pub record Host (env : Env) : Type 1 where
  pub Addr : Type 0
  pub fetch : env.World → Result Text AppConfig
  pub merge_config : Text → Exec env.World Text (Unit {0})
  pub load : Text → Exec env.World Text (Unit {0})
  pub read_to_string : Text → env.World → Result Text Text
  pub exists : Text → env.World → Bool
  pub metadata_len : Text → env.World → Result Text ℕ
  pub create_dir_all : Text → Exec env.World Text (Unit {0})
  pub getrandom : ℕ → Exec env.World Text (List ℕ)
  pub create : Text → Exec env.World Text (Unit {0})
  pub write_all : Text → List ℕ → Exec env.World Text (Unit {0})
  pub to_socket_addrs : Text → Exec env.World Text (List Addr)
  pub connect_timeout : Addr → ℕ → Exec env.World Text (Unit {0})

abbrev pub first_or : Text → List Text → Text
first_or s [] = s
first_or s (t ∷ ts) = t

abbrev pub authority_of : Text → Text
authority_of bare = first_or bare (split b'/' bare)

abbrev pub add_port : Text → Text
add_port host = if has_char b':' host then host else host ++ codes ":8000"

-- The host and the port to dial.
unfoldable pub host_port : Text → Text
unfolding trim_start_matches split has_char
host_port url =
    add_port
      (authority_of (trim_start_matches (codes "wss://") (trim_start_matches (codes "ws://") url)))

unfoldable pub secret_path : Text → Text
secret_path name = codes "./secrets/" ++ (name ++ codes "/secret.key")

-- The errors and the warnings of `check`.
pub record Report : Type 0 where
  pub errors : List Text
  pub warnings : List Text

abbrev pub validation_errors : Result (List Text) (Unit {0}) → List Text
validation_errors (ok u) = []
validation_errors (err es) = es

abbrev pub error_of : Text → Result Text (Unit {0}) → List Text
error_of what (ok u) = []
error_of what (err e) = (what ++ (codes ": " ++ e)) ∷ []

abbrev pub verdict : List Text → Ending
verdict [] = returns
verdict (e ∷ es) = exits 1

abbrev pub ending_of : Result Text (Unit {0}) → Ending
ending_of (ok u) = returns
ending_of (err e) = fails e

abbrev pub errors_of :
    AppConfig → Report → Result Text (Unit {0}) → Result Text (Unit {0}) → List Text
errors_of config secret signaling routing =
    validation_errors (validate config)
    ++ (secret.errors
        ++ (error_of (codes "Cannot connect to signaling server " ++ config.signaling_server)
              signaling
            ++ error_of (codes "Cannot connect to routing server " ++ config.routing_server)
                routing))

-- The test of the secret file, on whether it exists and what its length reads as.
unfoldable pub file_report : Text → Bool → Result Text ℕ → Report
unfolding secret_path show_usize
file_report name false meta = record {
  errors =
      (codes "Group secret not found: "
        ++ (secret_path name ++ (codes "\n  Run: sgc init " ++ name)))
      ∷ [];
  warnings = [];
}
file_report name true (err e) = record {
  errors = (codes "Cannot read " ++ (secret_path name ++ (codes ": " ++ e))) ∷ [];
  warnings = [];
}
file_report name true (ok len) = record {
  errors = [];
  warnings =
      if leb 16 len
      then []
      else (codes "Group secret is only " ++ (show_usize len ++ codes " bytes (recommended: 32)"))
        ∷ [];
}

abbrev pub start_with : Result (List Text) (Unit {0}) → Bool → Ending
start_with (err errors) found = exits 1
start_with (ok u) false = exits 1
start_with (ok u) true = serves

module _ (env : Env) (host : Host env) where
  open env use {World}

  abbrev pub make_dir : Text → Exec World Text (Unit {0})
  make_dir name =
      map_error (λ e. codes "Failed to create directory ./secrets/" ++ (name ++ (codes ": " ++ e)))
        (host.create_dir_all (codes "./secrets/" ++ name))

  abbrev pub random_secret : Exec World Text (List ℕ)
  random_secret =
      map_error (λ e. codes "Failed to generate random secret: " ++ e) (host.getrandom 32)

  abbrev pub create_file : Text → Exec World Text (Unit {0})
  create_file name =
      map_error (λ e. codes "Failed to create " ++ (secret_path name ++ (codes ": " ++ e)))
        (host.create (secret_path name))

  abbrev pub write_file : Text → List ℕ → Exec World Text (Unit {0})
  write_file name secret =
      map_error (λ e. codes "Failed to write secret: " ++ e)
        (host.write_all (secret_path name) secret)

  unfoldable pub init_steps : Text → Exec World Text (Unit {0})
  unfolding secret_path
  init_steps name = make_dir name >>= λ made.
      random_secret >>= λ secret. create_file name >>= λ created. write_file name secret

  -- An existing secret is kept.
  unfoldable pub init_on : Bool → Text → World → Ending × World
  unfolding init_steps
  init_on true name w = (exits 1, w)
  init_on false name w = let (r, w') = init_steps name w in (ending_of r, w')

  unfoldable pub init_secret : Text → World → Ending × World
  unfolding init_on
  init_secret name w = init_on (host.exists (secret_path name) w) name w

  unfoldable pub first_address : List host.Addr → Exec World Text (Unit {0})
  first_address [] = raise (codes "No addresses found")
  first_address (addr ∷ more) = host.connect_timeout addr 5

  unfoldable pub test_signaling_server : Text → Exec World Text (Unit {0})
  unfolding first_address host_port
  test_signaling_server url = do
    addrs ←
        map_error (λ e. codes "DNS resolution failed: " ++ e) (host.to_socket_addrs (host_port url))
    first_address addrs

  unfoldable pub secret_report : AppConfig → World → Report
  unfolding secret_path file_report
  secret_report config w =
      let path = secret_path config.group_secret in
      file_report config.group_secret (host.exists path w) (host.metadata_len path w)

  -- After the signaling server: `get_redis_url` fetches the configuration once more.
  unfoldable pub check_routing :
      AppConfig
      → Report
      → Result Text (Unit {0})
      → Result Text AppConfig
      → World
      → Report × Ending × World
  unfolding test_redis_connection get_redis_url validate
  check_routing config secret signaling (err e) w = (secret, panics, w)
  check_routing config secret signaling (ok again) w =
      let (routing, w') =
        map_error env.error_text (test_redis_connection env (get_redis_url again)) w in
      let errors = errors_of config secret signaling routing in
      (record { errors = errors; warnings = secret.warnings }, verdict errors, w')

  unfoldable pub check_loaded : Result Text AppConfig → World → Report × Ending × World
  unfolding secret_report test_signaling_server check_routing
  check_loaded (err e) w = (record { errors = []; warnings = [] }, exits 1, w)
  check_loaded (ok config) w =
      let secret = secret_report config w in
      let (signaling, w') = test_signaling_server config.signaling_server w in
      check_routing config secret signaling (host.fetch w') w'

  unfoldable pub check : World → Report × Ending × World
  unfolding check_loaded
  check w = check_loaded (host.fetch w) w

  -- `serves` stands for `ros_topic_discovery`, which does not return.
  unfoldable pub router_loaded : Result Text AppConfig → World → Ending
  unfolding validate secret_path
  router_loaded (err e) w = exits 1
  router_loaded (ok config) w =
      start_with (validate config) (host.exists (secret_path config.group_secret) w)

  unfoldable pub router : World → Ending
  unfolding router_loaded
  router w = router_loaded (host.fetch w) w

  unfoldable pub show_config : World → Ending
  show_config w = elim (host.fetch w) [ err e ↦ fails e | ok config ↦ returns ]
