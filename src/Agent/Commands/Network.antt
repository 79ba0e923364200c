-- ===== src/Agent/Commands/Network.antt =====
-- The network between the agent's SendCmd and the server's handlers.
use sco.Common.{ℕ, ◌+◌, ◌≡◌, ◌⊎◌, inl, inr, refl, List, Option, none, some}
use sco.Common.Run.{Run, done, panic}
use sco.Common.Result.{Result, ok, err}
use sco.Common.Text.{Text, codes}
use sco.SharedModels.{NodeTask}
use sco.Protocol.{Command, Response, zero_message}
use sco.CommandStore.{ConnCtx, execute}
use sco.Server.Config.{Config}
use sco.Server.App.Session.{store}
use sco.Agent.Exec.{Exec}

-- The agent's side of a response; a handler that panics or returns nil gives no response.
abbrev pub received : ConnCtx → Run (Option Response × ConnCtx) → Result Text Response × ConnCtx
received ctx (done (some r, ctx')) = (ok r, ctx')
received ctx (done (none, ctx')) = (err (codes "connection closed"), ctx')
received ctx panic = (err (codes "connection closed"), ctx)

-- What becomes of a call of SendCmd: its response arrives; or it returns an error, and the server has
-- not handled the command, or has, by the time of the next call.
pub data Fate : Type 0 where
  delivered : Fate
  lost unanswered : Text → Fate

-- One call of SendCmd: the id of the connection that has replaced the one before, if it was lost in
-- between, and the fate.
pub record Call : Type 0 where
  pub replaced : Option Text
  pub fate : Fate

-- The server's context of the connection that a call is made on
abbrev pub context_of : Option Text → ConnCtx → ConnCtx
context_of none ctx = ctx
context_of (some id) ctx = record { id = id; last_activity = 0; custom_data = none }

abbrev pub carried :
    Fate → ConnCtx → Result Text Response × ConnCtx → Result Text Response × ConnCtx
carried delivered ctx r = r
carried (lost e) ctx r = (err e, ctx)
carried (unanswered e) ctx r = (err e, r.1)

pub Fate-cases :
    (f : Fate) → (f ≡ delivered) ⊎ (((e : Text) × (f ≡ lost e)) ⊎ ((e : Text) × (f ≡ unanswered e)))
Fate-cases delivered = inl refl
Fate-cases (lost e) = inr (inl (e, refl))
Fate-cases (unanswered e) = inr (inr (e, refl))

pub Fate-delivered : (f : Fate) → Dec (f ≡ delivered)
Fate-delivered delivered = yes refl
Fate-delivered (lost e) = no (λ h. absurd cc)
Fate-delivered (unanswered e) = no (λ h. absurd cc)

module _ {F : Type 0} (marshal : List (NodeTask F) → Option Text) (cfg : Config F)
    (calls : ℕ → Call) where
  -- SendCmd against the server's command store; the world is the server's context of the connection,
  -- and the number of calls before.
  abbrev pub loopback : Command → Exec (ConnCtx × ℕ) Response
  loopback c (ctx, i) =
      let here = context_of (calls i).replaced ctx in
      let answer = received here (execute (store marshal cfg) here zero_message c) in
      let r = carried (calls i).fate here answer in (r.0, (r.1, i + 1))
