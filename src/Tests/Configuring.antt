-- ===== src/Tests/Configuring.antt =====
-- A configuration file that is made up at the first start.
use sco.Common.{◌≡◌, refl, sym, ap, Bool, true, false, List, [], Option, none, some}
use sco.Common.Dict.{text_key, lookup, insert, lookup-insert_self}
use sco.Common.Files.{Files, FilesLaws}
use sco.Common.Result.{Result, ok, err}
use sco.Common.Text.{Text, codes}
use sco.Agent.Config.{load_from}

abbrev Disk : Type 0
Disk = List (Text × Text)

abbrev is_missing : Option Text → Bool
is_missing none = true
is_missing (some xs) = false

abbrev content : Option Text → Result Text Text
content none = err (codes "no such file")
content (some xs) = ok xs

-- Configurations that are their own text
abbrev disk : Files Disk Text
disk = record {
  is_not_exist = λ p w. is_missing (lookup p w);
  read_file = λ p w. content (lookup p w);
  write_file = λ p xs w. (ok tt, insert p xs w);
  unmarshal = λ xs. ok xs;
  marshal_indent = λ c. ok c;
}

disk-FilesLaws : FilesLaws disk
disk-FilesLaws = record {
  written_exists = λ p xs w h. ap is_missing (lookup-insert_self p p xs w refl);
  written_read = λ p xs w h. ap content (lookup-insert_self p p xs w refl);
  unmarshal-marshal_indent = λ c xs h. sym h;
}

first_start : (load_from disk (codes "token 1") [] []).0 ≡ ok (codes "token 1")
unfolding load_from lookup
first_start = refl
