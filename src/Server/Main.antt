-- ===== src/Server/Main.antt =====
-- main of server/cmd/app/main.go: the configuration, and then the server. The logging service is
-- left out; what runs afterwards are the goroutines of ProtocolServer.
pub mod Restarts
use sco.Common.{◌≡◌, ◌↔◌, refl, sym, ap, ◌∙◌, List, Option}
use sco.Common.Run.{Run, done, panic, ◌>>=◌}
use sco.Common.Result.{Result, ok, err}
use sco.Common.Text.{Text, codes}
use sco.Common.Files.{Files}
use sco.SharedModels.{NodeTask}
use sco.CommandStore.{Store}
use sco.Server.Config.{Config, server_load_config}
use sco.Server.App.{start_sco_server}
use sco.Server.App.Session.{store}

module _ {F W : Type 0} (marshal : List (NodeTask F) → Option Text) where
  -- if err != nil { panic(err) }, and startScoServer with what was loaded
  abbrev pub run_loaded : Result Text (Config F) × W → Run (Store × W)
  run_loaded (err e, w) = panic
  run_loaded (ok cfg, w) = do cs ← start_sco_server marshal cfg; done (cs, w)

  -- `half` is 0.5, and `token` the access token that idgen makes for a default configuration.
  unfoldable pub main : F → Text → Files W (Config F) → W → Run (Store × W)
  main half token files w = run_loaded (server_load_config half token files (codes "config.json") w)
