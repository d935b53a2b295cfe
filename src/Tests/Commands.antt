-- ===== src/Tests/Commands.antt =====
-- The commands on a host whose files are the values of the store.
use fogros2_sgc.Base.{
  ℕ, zero, suc, ◌≡◌, refl, ap, subst, ◌∙◌, ◌↔◌, true, false, Option, none, some, List, [], ◌∷◌,
  ◌++◌, if◌then◌else◌, length,
}
use fogros2_sgc.Text.{Text, ◌==◌, eq_refl, codes}
use fogros2_sgc.Commands.{host_port, secret_report, Host, check, init_secret, secret_path, returns}
use fogros2_sgc.Commands.Check.{Passes, check_iff}
use fogros2_sgc.Commands.Init.{IsFileSystem, init_secret-report}
use fogros2_sgc.Commands.Dial.{host_port-parts, port_suffix, path_suffix, scheme}
use fogros2_sgc.Tests.Server.{lone_server, Store}
use fogros2_sgc.Base.Result.{err, ok, Result}
use fogros2_sgc.Redis.{is_some}
use fogros2_sgc.Config.{AppConfig, show_usize}
use fogros2_sgc.Text.Sets.{insert, lookup, lookup-insert}
use fogros2_sgc.Topics.Discovery.{Started, ros_topic_discovery}
use fogros2_sgc.Tests.Coder.{state_codec}
use fogros2_sgc.Name.{GdpName}
use fogros2_sgc.Topics.Setup.{Digest}

abbrev fleet : AppConfig
fleet = record {
  group_secret = codes "fleet";
  signaling_server = codes "ws://a.b";
  routing_server = codes "a.b:6379";
  topics = [];
}

abbrev zeros : ℕ → List ℕ
zeros zero = []
zeros (suc n) = 0 ∷ zeros n

length-zeros : (n : ℕ) → length (zeros n) ≡ n
length-zeros zero = refl
length-zeros (suc n) = ap suc (length-zeros n)

abbrev len_of : Option Text → Result Text ℕ
len_of none = err (codes "not found")
len_of (some s) = ok (length s)

abbrev lone_host : Host lone_server
lone_host = record {
  Addr = Unit {0};
  fetch = λ w. ok fleet;
  merge_config = λ file w. (ok tt, w);
  load = λ contents w. (ok tt, w);
  read_to_string = λ path w. ok [];
  exists = λ path w. is_some (lookup path w);
  metadata_len = λ path w. len_of (lookup path w);
  create_dir_all = λ path w. (ok tt, w);
  getrandom = λ n w. (ok (zeros n), w);
  create = λ path w. (ok tt, insert path [] w);
  write_all = λ path bs w. (ok tt, insert path bs w);
  to_socket_addrs = λ name w. (ok (tt ∷ []), w);
  connect_timeout = λ addr secs w. (ok tt, w);
}

lone_host-IsFileSystem : IsFileSystem lone_server lone_host
lone_host-IsFileSystem = record {
  filled = λ n bs w e. subst (λ (xs : List ℕ). length xs ≡ n) (cc (e)) (length-zeros n);
  written = λ path bs w e f.
      let here =
        lookup-insert path path bs (insert path [] w)
        ∙ ap (λ b. if b then some bs else lookup path (insert path [] w)) (eq_refl path) in
      (ap is_some here, ap len_of here);
}

init_secret-report_example :
    (lone_host.exists (secret_path (codes "fleet")) [] ≡ false)
    × (secret_report lone_server lone_host fleet
          (init_secret lone_server lone_host (codes "fleet") []).1
        ≡ record { errors = []; warnings = [] })
unfolding init_secret lookup
init_secret-report_example =
    init_secret-report lone_server lone_host lone_host-IsFileSystem fleet [] refl

abbrev with_secret : Store
with_secret = (codes "./secrets/fleet/secret.key", zeros 8) ∷ []

check_iff_example : ((check lone_server lone_host with_secret).1 ≡ returns) ↔ (
    (config : AppConfig) × (lone_host.fetch with_secret ≡ ok config)
    × Passes lone_server lone_host config with_secret)
check_iff_example = check_iff lone_server lone_host with_secret

-- A short secret is only warned of.
short_secret : check lone_server lone_host with_secret ≡ (
  record { errors = []; warnings = codes "Group secret is only 8 bytes (recommended: 32)" ∷ [] },
  returns,
  with_secret,
)
unfolding check lookup ◌==◌ show_usize
short_secret = refl

host_port-parts_example :
    host_port (scheme true ++ (codes "a.b" ++ (port_suffix none ++ path_suffix (some (codes "x")))))
    ≡ codes "a.b" ++ codes ":8000"
host_port-parts_example =
    host_port-parts true (codes "a.b") none (some (codes "x")) (refl, (refl, (refl, tt)))
      (refl, (refl, (refl, tt)))

abbrev two_topics : AppConfig
two_topics = record fleet {
  topics =
      record { name = codes "/a"; topic_type = codes "T"; role = codes "publisher" }
      ∷ record { name = codes "/b"; topic_type = codes "T"; role = codes "proxy" }
      ∷ [];
}

abbrev topics_host : Host lone_server
topics_host = record lone_host { fetch = λ w. ok two_topics }

abbrev me : GdpName
me = record { byte0 = 1; byte1 = 2; byte2 = 3; byte3 = 4 }

abbrev constant_digest : Text → Digest
constant_digest s i = i

abbrev started : Started Store
started =
    ros_topic_discovery lone_server state_codec topics_host constant_digest (λ path w. ok [])
      (λ w. (ok tt, w)) me []

-- A manager for each topic, and the heartbeat of the proxy.
three_tasks : length started.tasks ≡ 3
unfolding ros_topic_discovery ◌==◌
three_tasks = refl
