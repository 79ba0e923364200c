-- ===== src/Agent/Main.antt =====
-- main of agent/cmd/app/main.go: the configuration, and then the agent. The logging service is left
-- out.
use sco.Common.Run.{Run, done, panic}
use sco.Common.Result.{Result, ok, err}
use sco.Common.Text.{Text, codes}
use sco.Common.Files.{Files}
use sco.Agent.Config
use sco.Agent.Config.{load_config}
use sco.Agent.Start
use sco.Agent.Start.{Agent, Parts, new_agent}

-- The fields of the configuration that NewAgent gets
abbrev pub configuration_of : Config.Config → Start.Configuration
configuration_of cfg = record {
  node_name = cfg.node_name;
  endpoint = cfg.endpoint;
  access_token = cfg.access_token;
  runtime = cfg.runtime;
}

module _ {F W : Type 0} (parts : Parts F W) where
  -- A configuration that cannot be loaded is a panic; an error of NewAgent ends the program.
  abbrev pub run_loaded : Result Text Config.Config × W → Run (Result Text (Agent F) × W)
  run_loaded (err e, w) = panic
  run_loaded (ok cfg, w) = done (new_agent parts (configuration_of cfg) w)

  unfoldable pub main : Files W Config.Config → W → Run (Result Text (Agent F) × W)
  main files w = run_loaded (load_config files (codes "config.json") w)
