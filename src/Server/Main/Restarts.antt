-- ===== src/Server/Main/Restarts.antt =====
-- A server that is started again over the files of its first start.
use sco.Common.{◌≡◌, sym, ap, subst, ◌∙◌, List, Option}
use sco.Common.Run.{Run, done, ◌>>=◌}
use sco.Common.Result.{Result, ok, err}
use sco.Common.Text.{Text, codes}
use sco.Common.Files.{Files, FilesLaws}
use sco.SharedModels.{NodeTask}
use sco.CommandStore.{Store}
use sco.Agent.Config.Loading.{load_from-again}
use sco.Server.Config.{Config, default_config, server_load_config}
use sco.Server.App.Session.{store, start_sco_server-returns}
use sco.Server.Main.{run_loaded, main}

module _ {F W : Type 0} (marshal : List (NodeTask F) → Option Text) where
  -- A server that has started has loaded a configuration, and serves the handlers with it.
  run_loaded-done :
      (r : Result Text (Config F) × W) (cs : Store) (w' : W)
      → run_loaded marshal r ≡ done (cs, w')
      → (cfg : Config F) × (r ≡ (ok cfg, w'))
  run_loaded-done (err e, w) cs w' h = absurd cc
  run_loaded-done (ok cfg, w) cs w' h =
      let return : Store → Run (Store × W) = λ s. done (s, w) in
      let runs : return (store marshal cfg) ≡ done (cs, w') =
        subst (λ m. (m >>= return) ≡ done (cs, w')) (start_sco_server-returns marshal cfg) h in
      let place : w ≡ w' = cc in (cfg, ap (λ v. (ok cfg, v)) place)

  -- On a file system that keeps what is written: a server that has started, and is started again
  -- over the files that it left, starts again with the same command store, so with the same tasks
  -- and the same access token, whatever idgen returns the second time, and writes nothing.
  pub main-restart :
      (half : F) (token token' : Text) (files : Files W (Config F)) (w w' : W) (cs : Store)
      → FilesLaws files
      → main marshal half token files w ≡ done (cs, w')
      → main marshal half token' files w' ≡ done (cs, w')
  unfolding main server_load_config
  main-restart half token token' files w w' cs laws h =
      let r = server_load_config half token files (codes "config.json") w in
      let (cfg, loaded) = run_loaded-done r cs w' h in
      let place = ap (λ x. x.1) loaded in
      let again =
        load_from-again files laws (default_config half token) (default_config half token') cfg
          (codes "config.json") w (ap (λ x. x.0) loaded) in
      ap (run_loaded marshal) (
        ap (server_load_config half token' files (codes "config.json")) (sym place)
        ∙ again
        ∙ ap (λ x. (ok cfg, x)) place)
      ∙ ap (run_loaded marshal) (sym loaded)
      ∙ h
