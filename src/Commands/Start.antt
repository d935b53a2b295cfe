-- ===== src/Commands/Start.antt =====
-- cli/src/lib.rs, which runs a command, and the start in src/main.rs.
use fogros2_sgc.Base.{Option, none, some, ◌++◌}
use fogros2_sgc.Text.{Text, codes}
use fogros2_sgc.Redis.{Env}
use fogros2_sgc.Commands.{
  Host, Ending, returns, panics, exits, fails, init_secret, check, router, show_config,
}
use fogros2_sgc.Base.Result.{err, ok, Result}
use fogros2_sgc.Base.Exec.{pure, Exec}

pub data Commands : Type 0 where
  router_command check_command config_command completion_command : Commands
  init_command : Text → Commands

pub record Cli : Type 0 where
  pub config_file : Option Text
  pub command : Commands

module _ (env : Env) (host : Host env) where
  open env use {World}

  merge_config : Option Text → Exec World Text (Unit {0})
  merge_config none = pure tt
  merge_config (some file) = host.merge_config file

  run_loaded : Commands → World → Ending × World
  unfolding check router show_config
  run_loaded router_command w = (router env host w, w)
  run_loaded check_command w = ((check env host w).1, (check env host w).2)
  run_loaded config_command w = (show_config env host w, w)
  run_loaded completion_command w = (returns, w)
  run_loaded (init_command name) w = (panics, w)

  -- An error of the merge ends the program before a command is run.
  after_merge : Commands → Result Text (Unit {0}) × World → Ending × World
  unfolding run_loaded
  after_merge command (ok u, w) = run_loaded command w
  after_merge command (err e, w) = (fails e, w)

  run_command : Option Text → Commands → World → Ending × World
  unfolding init_secret after_merge merge_config
  run_command file (init_command name) w = init_secret env host name w
  run_command file command w = after_merge command (merge_config file w)

  unfoldable pub cli_match : Cli → World → Ending × World
  unfolding run_command
  cli_match cli w = run_command cli.config_file cli.command w

  -- The file that is loaded first; `var` is SGC_CONFIG.
  unfoldable pub config_path : Option Text → Text
  config_path none = codes "./src/resources/automatic.toml"
  config_path (some file) = codes "./src/resources/" ++ file

  unfoldable pub main : Option Text → Cli → World → Ending × World
  unfolding config_path cli_match
  main var cli w = elim (host.read_to_string (config_path var) w) [
    | err e ↦ (exits 1, w)
    | ok contents ↦
        let (r, w') = host.load contents w in
        elim r [ ok u ↦ cli_match cli w' | err e ↦ (fails e, w') ]
  ]
