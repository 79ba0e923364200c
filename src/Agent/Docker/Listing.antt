-- ===== src/Agent/Docker/Listing.antt =====
-- ListTasks of agent/internal/runtime/docker.go, which may panic.
use sco.Common.{List, [], ◌∷◌, length}
use sco.Common.Dict.{text_key, insert}
use sco.Common.Result.{Result, ok, err}
use sco.Common.Run.{Run, done, index, slice, ◌>>=◌}
use sco.Common.Text.{Text}
use sco.Agent.Runtime.{Status}
use sco.Agent.DockerClient.{Failure, Summary, Client}
use sco.Agent.Docker.{sco_server_label, status_of_state}

-- The loop; summary.Names[0][1:] panics where there is no name, or an empty one.
unfoldable pub list_into : List Summary → List (Text × Status) → Run (List (Text × Status))
list_into [] result = done result
list_into (summary ∷ items) result = do
  name ← index summary.names 0
  task_id ← slice name 1 (length name)
  list_into items (insert task_id (status_of_state summary.state) result)

unfoldable pub listed :
    {W : Type 0} → Result Failure (List Summary) × W → Run (Result Text (List (Text × Status))) × W
listed (err f, w) = (done (err f.text), w)
listed (ok items, w) = (do result ← list_into items []; done (ok result), w)

unfoldable pub list_tasks :
    {W P : Type 0} → Client W P → W → Run (Result Text (List (Text × Status))) × W
list_tasks client w = listed (client.container_list sco_server_label w)
