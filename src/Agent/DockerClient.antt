-- ===== src/Agent/DockerClient.antt =====
-- What agent/internal/runtime/docker.go uses of the Docker client, of the operating system and of
-- Go's packages: all of it code outside the repository, here parameters.
use sco.Common.{ℕ, Bool, List, Option}
use sco.Common.Int.{ℤ}
use sco.Common.Result.{Result}
use sco.Common.Text.{Text}
use sco.Agent.Runtime.{TaskConfig}

-- An error: its text, and what errdefs.IsNotFound says of it
pub record Failure : Type 0 where
  pub text : Text
  pub is_not_found : Bool

-- container.Summary, the result of FindContainerByName and ContainerList
pub record Summary : Type 0 where
  pub id : Text
  pub names : List Text
  pub state : Text
  pub labels : List (Text × Text)

-- network.PortBinding; the address is given by its text.
pub record PortBinding : Type 0 where
  pub host_ip : Text
  pub host_port : Text

-- The part of container.Config and container.HostConfig that is set or read; `P` is network.Port.
pub record Settings (P : Type 0) : Type 0 where
  pub image : Text
  pub cmd : List Text
  pub env : List Text
  pub port_bindings : List (P × List PortBinding)
  pub binds : List Text
  pub nano_cpus : ℤ
  pub memory : ℤ

pub record RestartPolicy : Type 0 where
  pub name : Text
  pub maximum_retry_count : ℕ

-- mclient.ContainerCreateOptions
pub record CreateOptions (P : Type 0) : Type 0 where
  pub name : Text
  pub labels : List (Text × Text)
  pub settings : Settings P
  pub restart_policy : RestartPolicy

-- The result of ContainerInspect: the id of the image, and the settings
pub record Inspection (P : Type 0) : Type 0 where
  pub image_id : Text
  pub settings : Settings P

-- A call that acts on a world of type `W`
abbrev pub Call : Type 0 → Type 0 → Type 0
Call W A = W → Result Failure A × W

-- client.SDKClient; a pull that has begun has a number.
pub record Client (W P : Type 0) : Type 0 where
  pub image_pull : Text → Call W ℕ
  pub wait : ℕ → Call W (Unit {0})
  pub find_container_by_name : Text → Call W Summary
  pub container_create : CreateOptions P → Call W Text
  pub container_start : Text → Call W (Unit {0})
  pub container_stop : Text → Call W (Unit {0})
  pub container_remove : Text → Call W (Unit {0})
  pub container_list : Text → Call W (List Summary)
  pub container_inspect : Text → Call W (Inspection P)
  pub image_inspect : Text → Call W Text

-- json.Marshal of a task, network.ParsePort, Port.Num, and the arithmetic of float32
pub record Conversions (F P : Type 0) : Type 0 where
  pub marshal : TaskConfig F → Result Text Text
  pub parse_port : Text → Option P
  pub num : P → ℕ
  pub to_nanos : F → ℤ  -- int64(x * 1e9)
  pub of_nanos : ℤ → F  -- float32(n) / 1e9

-- The environment of the process: os, filepath.Join, and Docker's contexts
pub record Host : Type 0 where
  pub getenv : Text → Text
  pub user_home_dir : Result Text Text
  pub join : Text → Text → Text
  pub is_not_exist : Text → Bool  -- of the error of os.Stat
  pub current_docker_host : Result Text Text
  pub default_docker_host : Text
