-- ===== src/Agent/Start.antt =====
-- NewAgent of agent/internal/agent/agent.go. The container runtime, NewDockerRuntime, ConnectTo and
-- SendCmd are parameters; the two loops that it starts run beside it.
pub mod Ready
pub mod Running
use sco.Common.{Bool, true, false, List, [], ◌++◌, if◌then◌else◌}
use sco.Common.Result.{Result, ok, err}
use sco.Common.Text.{Text, codes}
use sco.SharedModels.{NodeTask}
use sco.Protocol.{Command, Response}
use sco.Agent.Exec.{Exec, pure, raise, continue, wrapped, ◌>>=◌, ◌>>◌}
use sco.Agent.Runtime.{TaskConfig, Runtime, text_eq}
use sco.Agent.Commands.{ping, required, authenticate, get_tasks}
use sco.Agent.Reconcile.{reconcile}

pub record Configuration : Type 0 where
  pub node_name : Text
  pub endpoint : Text
  pub access_token : Text
  pub runtime : Text

-- The fields that the agent's own code changes; the server and the runtime are the parameters.
pub record Agent (F : Type 0) : Type 0 where
  pub node_name : Text
  pub access_token : Text
  pub tasks : List (TaskConfig F)

-- What reconcile leaves in the agent, or its error
abbrev pub reconciled :
    {F W : Type 0}
    → Agent F
    → Result Text (List (TaskConfig F))
    → Result Text (Unit {0}) × W
    → Result Text (Agent F) × W
reconciled a (ok tasks) (ok u, w) = (ok (record a { tasks = tasks }), w)
reconciled a (err e) (ok u, w) = (err e, w)
reconciled a got (err e, w) = (err e, w)

-- What the parameters of NewAgent are
pub record Parts (F W : Type 0) : Type 0 where
  pub float_eq : F → F → Bool
  pub unmarshal : Text → Result Text (List (NodeTask F))
  pub new_docker_runtime : Exec W (Unit {0})
  pub connect_to : Text → Exec W (Unit {0})
  pub send_cmd : Command → Exec W Response
  pub rt : Runtime F W

module _ {F W : Type 0} (parts : Parts F W) where
  -- The switch over the runtime
  abbrev pub init_runtime : Text → Exec W (Unit {0})
  init_runtime runtime w =
      if text_eq runtime (codes "docker")
      then wrapped (codes "error initializing runtime") (parts.new_docker_runtime w)
      else (err (codes "unsupported runtime: " ++ runtime), w)

  -- reconcile, which keeps the tasks that it got in the agent
  abbrev pub reconcile_agent : Agent F → Exec W (Agent F)
  reconcile_agent a w =
      let got = get_tasks parts.send_cmd parts.unmarshal a.node_name w in
      reconciled a got.0 (reconcile parts.float_eq parts.rt got.0 got.1)

  unfoldable pub new_agent : Configuration → Exec W (Agent F)
  new_agent cfg = do
    init_runtime cfg.runtime
    (λ w. wrapped (codes "error connecting to server") (parts.connect_to cfg.endpoint w))
    (λ w. required parts.send_cmd (codes "error pinging server") (ping parts.send_cmd w))
    (λ w.
        wrapped (codes "error authenticating with server")
          (authenticate parts.send_cmd cfg.access_token w))
    λ w. wrapped (codes "error during initial reconcile") (
        reconcile_agent
          (record { node_name = cfg.node_name; access_token = cfg.access_token; tasks = [] }) w)
