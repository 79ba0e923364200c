-- ===== src/Agent/Commands.antt =====
-- agent/internal/agent/commands.go, and the parts of agent.go that use it. `send_cmd` stands for
-- the SendCmd of the agent's protocol server; an error or a response that is no success becomes an
-- error whose text only reaches the log.
pub mod Fetching
pub mod Loopback
pub mod Network
use sco.Common.{
  ℕ, Bool, true, false, not, List, [], ◌∷◌, ◌++◌, Option, none, some, ◌==◌, ite, if◌then◌else◌,
}
use sco.Common.Result.{Result, ok, err}
use sco.Common.Text.{Text, codes}
use sco.Common.Dict.{text_key, same}
use sco.Common.Decimal.{decimal}
use sco.SharedModels.{NodeTask}
use sco.Protocol.{
  Command, Response, status_code_ok, status_not_authenticated, server_command_ping,
  server_command_token_auth, server_command_check_auth, server_command_get_tasks,
}
use sco.Agent.Exec.{Exec, pure, raise, continue, ◌>>=◌}
use sco.Agent.Runtime.{TaskConfig}

-- &protocol.Command{ID: id, Payload: payload}
abbrev pub command : ℕ → Text → Command
command id payload = record { req_id = 0; id = id; payload = payload }

abbrev pub unexpected : Response → Text
unexpected resp =
    codes "unexpected response code: "
    ++ (decimal resp.code ++ (codes ", payload: " ++ resp.payload))

module _ {W : Type 0} (send_cmd : Command → Exec W Response) where
  unfoldable pub ping : Exec W Bool
  ping = do
    resp ← send_cmd (command server_command_ping (codes "ping"))
    if not (resp.code == status_code_ok) then raise (unexpected resp) else pure true

  unfoldable pub token_auth : Text → Exec W Bool
  token_auth token = do
    resp ← send_cmd (command server_command_token_auth token)
    if not (resp.code == status_code_ok) then raise (unexpected resp) else pure true

  unfoldable pub check_auth : Exec W Bool
  check_auth = do
    resp ← send_cmd (command server_command_check_auth [])
    if not (resp.code == status_code_ok)
        then (if resp.code == status_not_authenticated then pure false else raise (unexpected resp))
        else pure true

  -- if success, err := m; err != nil || !success { return fmt.Errorf(prefix + ": %w", err) }
  abbrev pub required : Text → Result Text Bool × W → Result Text (Unit {0}) × W
  required prefix (err e, w) = (err (prefix ++ (codes ": " ++ e)), w)
  required prefix (ok true, w) = (ok tt, w)
  required prefix (ok false, w) = (err (prefix ++ codes ": %!w(<nil>)"), w)

  unfoldable pub authenticate : Text → Exec W (Unit {0})
  authenticate access_token w =
      continue (required (codes "error authenticating with server") (token_auth access_token w))
        (λ _ w'. required (codes "error checking authentication") (check_auth w'))

  -- One round of the ping loop; what fails is logged.
  pub ping_round : Text → W → W
  ping_round access_token w =
      (continue (required [] (ping w)) (λ _ w1.
        continue (check_auth w1)
          (λ success. if success then pure tt else authenticate access_token))).1

module _ {F : Type 0} where
  -- The fields of a task configuration, from those of a node's task.
  abbrev pub to_config : NodeTask F → TaskConfig F
  to_config nt = record {
    name = nt.container_name;
    image = nt.image;
    command = nt.command;
    environment_variables = nt.environment_variables;
    exposed_ports = nt.exposed_ports;
    volumes = nt.volumes;
    max_cpu = nt.max_cpu;
    max_memory = nt.max_memory;
  }

  -- The loop of GetTasks
  unfoldable pub convert : Text → List (NodeTask F) → List (TaskConfig F)
  convert node_name [] = []
  convert node_name (nt ∷ nts) =
      ite (same nt.node node_name) (to_config nt ∷ convert node_name nts) (convert node_name nts)

module _ {F W : Type 0} (send_cmd : Command → Exec W Response)
    (unmarshal : Text → Result Text (List (NodeTask F))) where
  -- json.Unmarshal, and the loop
  abbrev pub decoded : Text → Result Text (List (NodeTask F)) → Result Text (List (TaskConfig F))
  decoded node_name (err e) = err e
  decoded node_name (ok nts) = ok (convert node_name nts)

  unfoldable pub get_tasks : Text → Exec W (List (TaskConfig F))
  get_tasks node_name = do
    resp ← send_cmd (command server_command_get_tasks node_name)
    if not (resp.code == status_code_ok) then raise (unexpected resp) else λ w.
        (decoded node_name (unmarshal resp.payload), w)
