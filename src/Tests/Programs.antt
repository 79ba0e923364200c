-- ===== src/Tests/Programs.antt =====
-- The programs: a server whose first start writes its configuration, and that is started again.
use sco.Common.{ℕ, ◌≡◌, refl, sym, ap, ◌∙◌, Bool, true, false, List, [], ◌∷◌, Option, none, some}
use sco.Common.Dict.{text_key, lookup, insert, lookup-insert_self}
use sco.Common.Files.{Files, FilesLaws}
use sco.Common.Result.{Result, ok, err}
use sco.Common.Run.{done}
use sco.Common.Text.{Text, codes}
use sco.Server.Config.{Config, default_config}
use sco.Server.Main.{main}
use sco.Server.Main.Restarts.{main-restart}
use sco.Server.App.Session.{store}
use sco.Tests.Codec.{put_config, get_config, get_config-put_config}
use sco.Tests.Peers.{count}

-- A disk holds files under their paths.
abbrev Disk : Type 0
Disk = List (Text × List ℕ)

abbrev is_missing : Option (List ℕ) → Bool
is_missing none = true
is_missing (some xs) = false

abbrev contents : Option (List ℕ) → Result Text (List ℕ)
contents none = err (codes "no such file")
contents (some xs) = ok xs

abbrev disk : Files Disk (Config ℕ)
disk = record {
  is_not_exist = λ path w. is_missing (lookup path w);
  read_file = λ path w. contents (lookup path w);
  write_file = λ path xs w. (ok tt, insert path xs w);
  unmarshal = λ xs. ok (get_config xs);
  marshal_indent = λ c. ok (put_config c);
}

disk-FilesLaws : FilesLaws disk
disk-FilesLaws = record {
  written_exists = λ path xs w h. ap is_missing (lookup-insert_self path path xs w refl);
  written_read = λ path xs w h. ap contents (lookup-insert_self path path xs w refl);
  unmarshal-marshal_indent = λ c xs h.
      let own : put_config c ≡ xs = cc in
      ap (λ x. ok x) (ap get_config (sym own) ∙ get_config-put_config c);
}

-- The configuration of a first start, and the disk that it leaves
abbrev first_config : Config ℕ
first_config = default_config 2 (codes "token 1")

abbrev left_behind : Disk
left_behind = (codes "config.json", put_config first_config) ∷ []

first_start : main count 2 (codes "token 1") disk [] ≡ done (store count first_config, left_behind)
unfolding main sco.Server.Config.server_load_config sco.Agent.Config.load_from
    sco.Server.App.start_sco_server sco.CommandStore.register_handler sco.Common.ℕ_discrete
    sco.Common.Text.Text-discrete lookup insert
first_start = refl

main-restart_example :
    main count 2 (codes "token 2") disk left_behind ≡ done (store count first_config, left_behind)
main-restart_example =
    main-restart count 2 (codes "token 1") (codes "token 2") disk [] left_behind
      (store count first_config) disk-FilesLaws first_start
