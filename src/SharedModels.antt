-- ===== src/SharedModels.antt =====
-- protocol/pkg/sharedmodels/node.go. The type of the CPU shares, a float32, is a parameter.
use sco.Common.{List}
use sco.Common.Int.{ℤ}
use sco.Common.Text.{Text}

pub record NodeTask (F : Type 0) : Type 0 where
  pub node : Text
  pub container_name : Text
  pub image : Text
  pub command : List Text
  pub environment_variables : List Text
  pub exposed_ports : List (Text × Text)
  pub volumes : List Text
  pub max_cpu : F
  pub max_memory : ℤ  -- int64
