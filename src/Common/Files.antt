-- ===== src/Common/Files.antt =====
-- What the programs use of the file system and of encoding/json, for a configuration of type `C`.
use sco.Common.Result.{Result}
use sco.Common.Text.{Text}
use Prim.Native.Nat.{ℕ}
use mathlib.Core.Bool.{Bool, false}
use mathlib.Core.List.{List}
use mathlib.Core.Path.{◌≡◌}

-- os.Stat with os.IsNotExist, os.ReadFile and os.WriteFile on a world of type `W`; json.Unmarshal
-- and json.MarshalIndent
pub record Files (W C : Type 0) : Type 0 where
  pub is_not_exist : Text → W → Bool
  pub read_file : Text → W → Result Text (List ℕ)
  pub write_file : Text → List ℕ → W → Result Text (Unit {0}) × W
  pub unmarshal : List ℕ → Result Text C
  pub marshal_indent : C → Result Text (List ℕ)

-- A file that was written is there, and holds what was written; what was marshalled is read back.
pub record FilesLaws {W C : Type 0} (files : Files W C) : Type 0 where
  pub written_exists :
      (path : Text) (xs : List ℕ) (w : W)
      → (files.write_file path xs w).0 ≡ Result.ok tt
      → files.is_not_exist path (files.write_file path xs w).1 ≡ false
  pub written_read :
      (path : Text) (xs : List ℕ) (w : W)
      → (files.write_file path xs w).0 ≡ Result.ok tt
      → files.read_file path (files.write_file path xs w).1 ≡ Result.ok xs
  pub unmarshal-marshal_indent :
      (c : C) (xs : List ℕ)
      → files.marshal_indent c ≡ Result.ok xs
      → files.unmarshal xs ≡ Result.ok c
