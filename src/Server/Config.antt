-- ===== src/Server/Config.antt =====
-- server/internal/config/config.go. SlogLevel and LoadConfig are, but for the type of the
-- configuration, the agent's (Agent/Config).
use sco.Common.{List, [], ◌∷◌}
use sco.Common.Files.{Files}
use sco.Common.Int.{pos}
use sco.Common.Result.{Result}
use sco.Common.Text.{Text, codes}
use sco.SharedModels.{NodeTask}
use sco.Agent.Config.{Level, slog_level, load_from}

pub record Config (F : Type 0) : Type 0 where
  pub log_level : Text
  pub access_token : Text
  pub tasks : List (NodeTask F)

pub server_slog_level : {F : Type 0} → Config F → Level
server_slog_level c = slog_level c.log_level

-- The default of generateDefaultConfig; `half` is the float32 0.5, and the token what
-- idgen.GenerateID(64) returned.
abbrev pub default_config : {F : Type 0} → F → Text → Config F
default_config half token = record {
  log_level = codes "info";
  access_token = token;
  tasks =
      record {
        node = codes "agent-1";
        container_name = codes "sco-gitea";
        image = codes "docker.gitea.com/gitea:latest";
        command = [];
        environment_variables = [];
        exposed_ports = (codes "3000", codes "3000") ∷ (codes "22", codes "2222") ∷ [];
        volumes = [];
        max_cpu = half;
        max_memory = pos 512;
      }
      ∷ [];
}

unfoldable pub server_load_config :
    {F W : Type 0} → F → Text → Files W (Config F) → Text → W → Result Text (Config F) × W
server_load_config half token files path w = load_from files (default_config half token) path w
