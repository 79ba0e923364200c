-- ===== src/Agent/Config.antt =====
-- agent/internal/config/config.go. The server's config.go loads in the same way (Server/Config).
pub mod Loading
use sco.Common.{ℕ, ◌+◌, Bool, true, false, ◌&&◌, List, [], ◌∷◌, map, leb, if◌then◌else◌}
use sco.Common.Files.{Files}
use sco.Common.Result.{Result, ok, err}
use sco.Common.Text.{Text, codes}
use sco.Agent.Runtime.{text_eq}

pub record Config : Type 0 where
  pub log_level : Text
  pub node_name : Text
  pub runtime : Text
  pub endpoint : Text
  pub access_token : Text

-- slog's levels
pub data Level : Type 0 where
  debug info warn error : Level

-- strings.ToLower on ASCII. What it makes of other characters equals no level's name but perhaps
-- "info", which any other text stands for, too.
abbrev pub lower : ℕ → ℕ
lower c = if leb 65 c && leb c 90 then c + 32 else c

abbrev pub to_lower : Text → Text
to_lower = map lower

-- The switch of SlogLevel
unfoldable pub level_of : Text → Level
level_of name =
    if text_eq name (codes "debug")
    then debug
    else if text_eq name (codes "info")
    then info
    else if text_eq name (codes "warn")
    then warn
    else if text_eq name (codes "error")
    then error
    else info

pub slog_level : Text → Level
unfolding level_of
slog_level log_level = level_of (to_lower log_level)

-- What os.WriteFile returned, and the default
abbrev pub stored : {W C : Type 0} → C → Result Text (Unit {0}) × W → Result Text C × W
stored default (ok u, w) = (ok default, w)
stored default (err e, w) = (err e, w)

module _ {W C : Type 0} (files : Files W C) where
  -- generateDefaultConfig from the default on
  abbrev pub store_default : C → Text → Result Text (List ℕ) → W → Result Text C × W
  store_default default path (err e) w = (err e, w)
  store_default default path (ok xs) w = stored default (files.write_file path xs w)

  -- json.Unmarshal of what was read
  abbrev pub parsed : Result Text (List ℕ) → Result Text C
  parsed (err e) = err e
  parsed (ok xs) = files.unmarshal xs

  abbrev pub path_of : Text → Text
  path_of [] = codes "config.json"
  path_of (c ∷ cs) = c ∷ cs

  -- LoadConfig, for a default configuration
  unfoldable pub load_from : C → Text → W → Result Text C × W
  load_from default path w =
      let p = path_of path in
      if files.is_not_exist p w
      then store_default default p (files.marshal_indent default) w
      else (parsed (files.read_file p w), w)

abbrev pub default_config : Config
default_config = record {
  log_level = codes "info";
  node_name = codes "agent-1";
  runtime = codes "docker";
  endpoint = codes "localhost:8080";
  access_token = codes "PASTE_YOUR_ACCESS_TOKEN_HERE";
}

pub load_config : {W : Type 0} → Files W Config → Text → W → Result Text Config × W
unfolding load_from
load_config files path w = load_from files default_config path w
