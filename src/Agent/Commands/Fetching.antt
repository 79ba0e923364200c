-- ===== src/Agent/Commands/Fetching.antt =====
-- What the agent gets from GetTasks, over calls of SendCmd that may fail.
use mathlib.Core.List.{filter}
use sco.Common.{ℕ, ◌≡◌, ◌⊎◌, inl, inr, refl, List, [], ◌∷◌, map, Option, some, arith, Bool-cases}
use sco.Common.Run.{Run, done, panic}
use sco.Common.Result.{Result, ok}
use sco.Common.Text.{Text}
use sco.Common.Dict.{text_key, nat_key, same}
use sco.SharedModels.{NodeTask}
use sco.Protocol.{Command, Response, zero_message, server_command_get_tasks}
use sco.CommandStore.{ConnCtx}
use sco.Server.App.{check_authenticated}
use sco.Server.Config.{Config}
use sco.Server.App.Session.{get_tasks_panics, answer_get_tasks}
use sco.Agent.Commands.Network.{Fate-cases, Call, context_of, loopback}
use sco.Agent.Exec.{Exec}
use sco.Agent.Runtime.{TaskConfig}
use sco.Agent.Commands.{command, convert, get_tasks, to_config}

Run-cases : {A : Type 0} (m : Run A) → (m ≡ panic) ⊎ ((a : A) × (m ≡ done a))
Run-cases panic = inl refl
Run-cases (done a) = inr (a, refl)

module _ {F : Type 0} (marshal : List (NodeTask F) → Option Text) (cfg : Config F)
    (calls : ℕ → Call) where
  abbrev send : Command → Exec (ConnCtx × ℕ) Response
  send = loopback marshal cfg calls

  convert-filter :
      (name : Text) (ts : List (NodeTask F))
      → convert name (filter (λ (t : NodeTask F). same t.node name) ts)
        ≡ map to_config (filter (λ (t : NodeTask F). same t.node name) ts)
  unfolding convert
  convert-filter name [] = refl
  convert-filter name (t ∷ ts) = ground (arith, convert-filter name ts)

  -- The tasks that GetTasks returned are those of the node, in the order of the server's
  -- configuration, if JSON carries them over.
  pub get_tasks-loopback :
      (unmarshal : Text → Result Text (List (NodeTask F))) (ctx : ConnCtx) (i : ℕ)
      (name json : Text) (ts : List (TaskConfig F))
      → marshal (filter (λ (t : NodeTask F). same t.node name) cfg.tasks) ≡ some json
      → unmarshal json ≡ ok (filter (λ (t : NodeTask F). same t.node name) cfg.tasks)
      → (get_tasks (loopback marshal cfg calls) unmarshal name (ctx, i)).0 ≡ ok ts
      → ts ≡ map to_config (filter (λ (t : NodeTask F). same t.node name) cfg.tasks)
  unfolding get_tasks
  get_tasks-loopback unmarshal ctx i name json ts hm hu h =
      let asks = command server_command_get_tasks name in
      let here = context_of (calls i).replaced ctx in
      elim (Fate-cases (calls i).fate) [
        | inr (inl (x, e)) ↦ absurd (ground arith)
        | inr (inr (x, e)) ↦ absurd (ground arith)
        | inl e ↦ elim (Run-cases (check_authenticated here)) [
          | inl k ↦
              absurd (ground (arith, get_tasks_panics marshal cfg here zero_message asks k refl))
          | inr (b, k) ↦ elim (Bool-cases b) [
            | inr refused ↦ absurd (
                ground
                  (arith, refused, answer_get_tasks marshal cfg here zero_message asks b k refl))
            | inl granted ↦ ground (
              arith,
              hm,
              hu,
              granted,
              convert-filter name cfg.tasks,
              answer_get_tasks marshal cfg here zero_message asks b k refl,
            )
          ]
        ]
      ]
