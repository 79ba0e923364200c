-- ===== src/Tests/Starting.antt =====
-- An agent that starts against the server's handlers, over a table of tasks.
use sco.Common.{Bool, ℕ, ◌==◌, ◌≡◌, refl, List, [], ◌∷◌, Option, none, some, map}
use sco.Common.Result.{ok, err}
use sco.Common.Text.{Text, codes}
use sco.CommandStore.{ConnCtx}
use sco.Agent.Exec.{Exec}
use sco.Agent.Commands.Network.{Call, delivered}
use sco.Agent.Commands.{to_config}
use sco.Agent.Start.{Configuration, Agent, Parts, new_agent}
use sco.Agent.Reconcile.Laws.{Laws, Task}
use sco.Agent.Start.Ready.{served, new_agent-ready}
use sco.Tests.Peers.{cfg, count}
use sco.Tests.Orchestration.{World, table, view, current, fresh, uncount, wanted}

abbrev hosted : {A : Type 0} → Exec World A → Exec ((ConnCtx × ℕ) × World) A
hosted m (c, w) = let r = m w in (r.0, (c, r.1))

abbrev parts : Parts ℕ ((ConnCtx × ℕ) × World)
parts = record {
  float_eq = λ a b. a == b;
  unmarshal = uncount;
  new_docker_runtime = λ w. (ok tt, w);
  connect_to = λ endpoint w. (ok tt, w);
  send_cmd = λ c w. (err [], w);
  rt = record {
    pull_image = λ i. hosted (table.pull_image i);
    start_task = λ t. hosted (table.start_task t);
    stop_task = λ n. hosted (table.stop_task n);
    remove_task = λ n. hosted (table.remove_task n);
    get_task_status = λ n. hosted (table.get_task_status n);
    get_task_info = λ n. hosted (table.get_task_info n);
    is_task_image_current = λ n i. hosted (table.is_task_image_current n i);
    list_tasks = hosted table.list_tasks;
  };
}

-- Every call gets its response.
abbrev steady : ℕ → Call
steady i = record { replaced = none; fate = delivered }

abbrev conf : Configuration
conf = record {
  node_name = codes "n1";
  endpoint = codes "s:1";
  access_token = cfg.access_token;
  runtime = codes "docker";
}

abbrev agent : Agent ℕ
agent = record { node_name = codes "n1"; access_token = cfg.access_token; tasks = wanted ∷ [] }

starts : (new_agent (served count cfg steady parts) conf ((fresh, 0), [])).0 ≡ ok agent
unfolding new_agent sco.Agent.Commands.ping sco.Agent.Commands.token_auth
    sco.Agent.Commands.check_auth sco.Agent.Commands.authenticate sco.Agent.Commands.get_tasks
    sco.Agent.Commands.convert sco.Common.Text.Text-discrete sco.Server.App.handle_ping
    sco.Server.App.handle_check_auth sco.Server.App.handle_token_auth
    sco.Server.App.check_authenticated sco.Server.App.handle_get_tasks sco.Server.App.tasks_of
    sco.CommandStore.set_custom_data sco.CommandStore.get_custom_data sco.CommandStore.execute
    sco.CommandStore.wrap sco.Common.Dict.lookup sco.Common.Dict.insert
    sco.Agent.Reconcile.reconcile
starts = refl

new_agent-ready_example : (conf.access_token ≡ cfg.access_token) × (agent.tasks ≡ wanted ∷ [])
unfolding sco.Common.Text.Text-discrete
new_agent-ready_example =
    new_agent-ready count cfg steady parts conf ((fresh, 0), []) agent (1 ∷ []) refl refl starts

abbrev seen : (ConnCtx × ℕ) × World → Text → Option (Task ℕ)
seen w = view w.1

abbrev seen_current : (ConnCtx × ℕ) × World → Text → Text → Bool
seen_current w = current w.1
