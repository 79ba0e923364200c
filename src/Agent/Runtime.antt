-- ===== src/Agent/Runtime.antt =====
-- agent/internal/runtime/runtime.go: task configurations, their comparison, and the interface of a
-- container runtime. A float32 is a type parameter, with its `==` as a function.
pub mod Compare
use sco.Common.{
  ℕ, Bool, true, false, not, ◌&&◌, List, [], ◌∷◌, Option, none, some, length, ◌==◌, ltb, ite,
  if◌then◌else◌, ℕ_discrete,
}
use sco.Common.Int.{ℤ, ℤ-discrete}
use sco.Common.Text.{Text}
use sco.Common.Dict.{text_key, same, lookup}
use sco.Common.Sort.{sort}
use sco.Agent.Exec.{Exec}

pub record TaskConfig (F : Type 0) : Type 0 where
  pub name : Text
  pub image : Text
  pub command : List Text
  pub environment_variables : List Text
  pub exposed_ports : List (Text × Text)
  pub volumes : List Text
  pub max_cpu : F
  pub max_memory : ℤ  -- int64, in MB

-- The statuses RUNNING, STOPPED and UNKNOWN
pub data Status : Type 0 where
  running stopped unknown : Status

-- The interface Runtime, over a world of type `W`.
pub record Runtime (F W : Type 0) : Type 0 where
  pub pull_image : Text → Exec W (Unit {0})
  pub start_task : TaskConfig F → Exec W (Unit {0})
  pub stop_task : Text → Exec W (Unit {0})
  pub remove_task : Text → Exec W (Unit {0})
  pub get_task_status : Text → Exec W Status
  pub get_task_info : Text → Exec W (Option (TaskConfig F))
  pub is_task_image_current : Text → Text → Exec W Bool
  pub list_tasks : Exec W (List (Text × Status))

-- a == b and slices.Equal on strings
abbrev pub text_eq : Text → Text → Bool
text_eq a b = ite (same a b) true false

abbrev pub texts_eq : List Text → List Text → Bool
texts_eq [] [] = true
texts_eq (x ∷ xs) (y ∷ ys) = text_eq x y && texts_eq xs ys
texts_eq _ _ = false

-- slices.Contains
unfoldable pub contains : List Text → Text → Bool
contains [] e = false
contains (x ∷ xs) e = if text_eq x e then true else contains xs e

-- The loop over the wanted variables
unfoldable pub all_contained : List Text → List Text → Bool
unfolding contains
all_contained [] other = true
all_contained (e ∷ es) other = if not (contains other e) then false else all_contained es other

-- m[k]: the empty string for a key that is missing
unfoldable pub port_at : List (Text × Text) → Text → Text
port_at m k = elim (lookup k m) [ none ↦ [] | some v ↦ v ]

-- The loop over the wanted ports
unfoldable pub ports_match : List (Text × Text) → List (Text × Text) → Bool
ports_match [] other = true
ports_match ((k, v) ∷ ports) other =
    if not (text_eq (port_at other k) v) then false else ports_match ports other

module _ {F : Type 0} (float_eq : F → F → Bool) where
  -- CompareTo
  unfoldable pub compare_to : TaskConfig F → TaskConfig F → Bool
  compare_to t other =
      if not (text_eq t.name other.name)
      then false
      else if not (text_eq t.image other.image)
      then false
      else if ltb 0 (length t.command) && not (texts_eq t.command other.command)
      then false
      else if not (float_eq t.max_cpu other.max_cpu)
      then false
      else if not (ite (ℤ-discrete t.max_memory other.max_memory) true false)
      then false
      else if not (all_contained t.environment_variables other.environment_variables)
      then false
      else if not (length t.exposed_ports == length other.exposed_ports)
      then false
      else if not (ports_match t.exposed_ports other.exposed_ports)
      then false
      else if not (texts_eq (sort t.volumes) (sort other.volumes))
      then false
      else true
