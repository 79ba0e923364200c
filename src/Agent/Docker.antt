-- ===== src/Agent/Docker.antt =====
-- agent/internal/runtime/docker.go: the runtime over a Docker client.
pub mod Listing
pub mod Ports
pub mod RoundTrip
pub mod ClientLaws
pub mod Names
pub mod Creates
pub mod Starts
pub mod Views
pub mod Refines
pub mod Reconciles
use sco.Common.{
  ℕ, Bool, true, false, not, ◌||◌, List, [], ◌∷◌, ◌++◌, Option, none, some, length, ◌==◌, ite,
  if◌then◌else◌,
}
use sco.Common.Decimal.{decimal}
use sco.Common.Dict.{Key, text_key, lookup, insert}
use sco.Common.Int.{wrap64, times, quotient}
use sco.Common.Result.{Result, ok, err}
use sco.Common.Text.{Text, codes}
use sco.Agent.Exec.{Exec, pure, raise, ◌>>=◌, ◌>>◌}
use sco.Agent.Runtime.{TaskConfig, Status, running, stopped, unknown, text_eq}
use sco.Agent.DockerClient.{
  Failure, Summary, PortBinding, Settings, CreateOptions, Inspection, Call, Client, Conversions,
  Host,
}

abbrev pub sco_server_label : Text
sco_server_label = codes "de.oliver.sco.task"

-- container.StateRunning and container.StateExited, by the values that Docker's API documents
abbrev pub state_running : Text
state_running = codes "running"

abbrev pub state_exited : Text
state_exited = codes "exited"

-- The switch over the state of a container
unfoldable pub status_of_state : Text → Status
status_of_state state =
    if text_eq state state_running
    then running
    else if text_eq state state_exited
    then stopped
    else unknown

-- if err != nil { return err }
abbrev pub returned : {W A : Type 0} → Result Failure A × W → Result Text A × W
returned (ok a, w) = (ok a, w)
returned (err f, w) = (err f.text, w)

abbrev pub call : {W A : Type 0} → Call W A → Exec W A
call m w = returned (m w)

abbrev pub lift : {W A : Type 0} → Result Text A → Exec W A
lift (ok a) = pure a
lift (err e) = raise e

abbrev pub is_empty : Text → Bool
is_empty [] = true
is_empty (c ∷ cs) = false

-- The host of the options, where there are options
abbrev pub host_options : Host → Text → Option Text
host_options h dir =
    if not (h.is_not_exist (h.join dir (codes "config.json")))
    then none
    else elim h.current_docker_host [ ok host ↦ some host | err e ↦ some h.default_docker_host ]

-- dockerClientOptions
unfoldable pub docker_client_options : Host → Result Text (Option Text)
docker_client_options h =
    if not (is_empty (h.getenv (codes "DOCKER_AUTH_CONFIG")))
      || not (is_empty (h.getenv (codes "DOCKER_CONTEXT")))
    then ok none
    else if not (is_empty (h.getenv (codes "DOCKER_CONFIG")))
    then ok (host_options h (h.getenv (codes "DOCKER_CONFIG")))
    else elim h.user_home_dir [
      | ok home ↦ ok (host_options h (h.join home (codes ".docker")))
      | err e ↦ err e
    ]

-- NewDockerRuntime; `new` is client.New.
pub new_docker_runtime :
    {C : Type 0} → (Option Text → Result Text C) → Result Text (Option Text) → Result Text C
new_docker_runtime new (err e) = err e
new_docker_runtime new (ok opts) = new opts

-- GetTaskStatus, after the call
unfoldable pub found_status :
    {W : Type 0} → Text → Result Failure Summary × W → Result Text Status × W
unfolding status_of_state
found_status task_id (err f, w) =
    if text_eq f.text (codes "container " ++ task_id ++ codes " not found")
    then (ok unknown, w)
    else (err f.text, w)
found_status task_id (ok summary, w) = elim (lookup sco_server_label summary.labels) [
  | none ↦ (ok unknown, w)
  | some label ↦ (ok (status_of_state summary.state), w)
]

abbrev pub loopback : Text
loopback = codes "127.0.0.1"

module _ {F P : Type 0} ⦃port_key : Key P⦄ (go : Conversions F P) where
  -- The loop of convertPortBindings
  unfoldable pub bind_ports :
      List (Text × Text) → List (P × List PortBinding) → Result Text (List (P × List PortBinding))
  bind_ports [] bindings = ok bindings
  bind_ports ((ctr_port, host_port) ∷ ports) bindings =
      elim (go.parse_port (ctr_port ++ codes "/tcp")) [
        | none ↦ err (codes "could not parse port: " ++ ctr_port)
        | some port ↦
            bind_ports ports
              (insert port (record { host_ip = loopback; host_port = host_port } ∷ []) bindings)
      ]

  unfoldable pub convert_port_bindings :
      List (Text × Text) → Result Text (List (P × List PortBinding))
  unfolding bind_ports
  convert_port_bindings ports = bind_ports ports []

  -- The loop of GetTaskInfo over the bindings
  unfoldable pub exposed_into :
      List (P × List PortBinding) → List (Text × Text) → List (Text × Text)
  exposed_into [] exposed = exposed
  exposed_into ((port, []) ∷ rest) exposed = exposed_into rest exposed
  exposed_into ((port, b ∷ bs) ∷ rest) exposed =
      exposed_into rest (insert (decimal (go.num port)) b.host_port exposed)

  -- What createContainer asks the client for; container.RestartPolicyDisabled is "no".
  abbrev pub create_options : TaskConfig F → Text → List (P × List PortBinding) → CreateOptions P
  create_options cfg cfg_data port_bindings = record {
    name = cfg.name;
    labels = (sco_server_label, cfg_data) ∷ [];
    settings = record {
      image = cfg.image;
      cmd = cfg.command;
      env = cfg.environment_variables;
      port_bindings = port_bindings;
      binds = cfg.volumes;
      nano_cpus = go.to_nanos cfg.max_cpu;
      memory = wrap64 (times (wrap64 (times cfg.max_memory 1024)) 1024);
    };
    restart_policy = record { name = codes "no"; maximum_retry_count = 0 };
  }

  -- What GetTaskInfo returns for a container
  abbrev pub info_of : Text → Settings P → TaskConfig F
  info_of task_id s = record {
    name = task_id;
    image = s.image;
    command = s.cmd;
    environment_variables = s.env;
    exposed_ports = exposed_into s.port_bindings [];
    volumes = s.binds;
    max_cpu = go.of_nanos s.nano_cpus;
    max_memory = quotient s.memory 1048576;
  }

  -- GetTaskInfo, after the call
  unfoldable pub inspected :
      {W : Type 0}
      → Text
      → Result Failure (Inspection P) × W
      → Result Text (Option (TaskConfig F)) × W
  inspected task_id (err f, w) = if f.is_not_found then (ok none, w) else (err f.text, w)
  inspected task_id (ok result, w) = (ok (some (info_of task_id result.settings)), w)

module _ {F P W : Type 0} ⦃port_key : Key P⦄ (go : Conversions F P) (client : Client W P) where
  unfoldable pub pull_image : Text → Exec W (Unit {0})
  pull_image image = do resp ← call (client.image_pull image); call (client.wait resp)

  unfoldable pub create_container : TaskConfig F → Exec W Text
  create_container cfg = do
    cfg_data ← lift (go.marshal cfg)
    port_bindings ← lift (convert_port_bindings go cfg.exposed_ports)
    call (client.container_create (create_options go cfg cfg_data port_bindings))

  unfoldable pub start_container : Text → Exec W (Unit {0})
  start_container container_id = call (client.container_start container_id)

  -- StartTask, after FindContainerByName; any error is taken for a container that does not exist.
  unfoldable pub start_found :
      TaskConfig F → Result Failure Summary × W → Result Text (Unit {0}) × W
  start_found cfg (err f, w) = (do ctr_id ← create_container cfg; start_container ctr_id) w
  start_found cfg (ok summary, w) =
      if text_eq summary.state state_running then (ok tt, w) else start_container summary.id w

  unfoldable pub start_task : TaskConfig F → Exec W (Unit {0})
  start_task cfg w = start_found cfg (client.find_container_by_name cfg.name w)

  unfoldable pub stop_task : Text → Exec W (Unit {0})
  stop_task task_id = call (client.container_stop task_id)

  unfoldable pub remove_task : Text → Exec W (Unit {0})
  remove_task task_id = call (client.container_remove task_id)

  unfoldable pub get_task_status : Text → Exec W Status
  get_task_status task_id w = found_status task_id (client.find_container_by_name task_id w)

  unfoldable pub get_task_info : Text → Exec W (Option (TaskConfig F))
  get_task_info task_id w = inspected go task_id (client.container_inspect task_id w)

  unfoldable pub is_task_image_current : Text → Text → Exec W Bool
  is_task_image_current task_id image = do
    current ← call (client.container_inspect task_id)
    desired ← call (client.image_inspect image)
    pure (text_eq current.image_id desired)
