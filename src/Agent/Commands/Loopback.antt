-- ===== src/Agent/Commands/Loopback.antt =====
-- The agent's commands against the server's handlers.
use sco.Common.{
  ℕ, ◌+◌, ◌≡◌, ◌≢◌, ◌↔◌, inl, inr, refl, sym, ap, ◌∙◌, true, false, List, [], Option, none, some,
  arith, Option-cases, Bool,
}
use sco.Common.Result.{Result, ok, err}
use sco.Common.Text.{Text, codes}
use sco.Common.Dict.{text_key, nat_key, same}
use sco.SharedModels.{NodeTask}
use sco.Protocol.{
  Command, Response, zero_message, server_command_token_auth, server_command_check_auth,
}
use sco.CommandStore.{ConnCtx, boolean, set_custom_data, execute}
use sco.Server.App.{authenticated_key}
use sco.Server.Config.{Config}
use sco.Server.App.Session.{
  check_authenticated-set, flag_unset, answer_token_auth, answer_check_auth,
}
use sco.Agent.Commands.Network.{delivered, Fate-cases, Fate-delivered, Call, context_of, loopback}
use sco.Agent.Exec.{Exec, bind_ok}
use sco.Agent.Commands.{command, token_auth, check_auth, required, authenticate}

module _ {F : Type 0} (marshal : List (NodeTask F) → Option Text) (cfg : Config F)
    (calls : ℕ → Call) where
  abbrev send : Command → Exec (ConnCtx × ℕ) Response
  send = loopback marshal cfg calls

  -- The context in which the token was accepted.
  abbrev pub flagged : ConnCtx → ConnCtx
  flagged ctx = set_custom_data ctx authenticated_key (boolean true)

  -- A call that fails, whatever the server has made of it
  fails :
      (c : Command) (ctx : ConnCtx) (i : ℕ)
      → (calls i).fate ≢ delivered
      → (e : Text) × ((send c (ctx, i)).0 ≡ err e)
  fails c ctx i h = elim (Fate-cases (calls i).fate) [
    | inl e ↦ absurd (h e)
    | inr (inl (x, e)) ↦ rw e (x, refl)
    | inr (inr (x, e)) ↦ rw e (x, refl)
  ]

  -- TokenAuth of a delivered call
  token_auth-right :
      (ctx : ConnCtx) (i : ℕ)
      → (calls i).fate ≡ delivered
      → token_auth send cfg.access_token (ctx, i)
        ≡ (ok true, (flagged (context_of (calls i).replaced ctx), i + 1))
  unfolding token_auth
  token_auth-right ctx i h =
      let asked = command server_command_token_auth cfg.access_token in
      let here = context_of (calls i).replaced ctx in
      ground (arith, answer_token_auth marshal cfg here zero_message asked refl)

  token_auth-failed :
      (token : Text) (ctx : ConnCtx) (i : ℕ)
      → (calls i).fate ≢ delivered
      → (token_auth send token (ctx, i)).0 ≢ ok true
  unfolding token_auth
  token_auth-failed token ctx i h =
      let (e, failed) = fails (command server_command_token_auth token) ctx i h in ground arith

  token_auth-wrong :
      (token : Text) (ctx : ConnCtx) (i : ℕ)
      → (calls i).fate ≡ delivered
      → token ≢ cfg.access_token
      → (token_auth send token (ctx, i)).0 ≢ ok true
  unfolding token_auth
  token_auth-wrong token ctx i h k =
      let asked = command server_command_token_auth token in
      let here = context_of (calls i).replaced ctx in
      ground (arith, answer_token_auth marshal cfg here zero_message asked refl)

  -- CheckAuth, behind an accepted token
  check_auth-kept :
      (ctx : ConnCtx) (i : ℕ)
      → (calls i).fate ≡ delivered
      → (calls i).replaced ≡ none
      → (check_auth send (flagged ctx, i)).0 ≡ ok true
  unfolding check_auth
  check_auth-kept ctx i h k =
      let asks = command server_command_check_auth [] in
      ground (
        arith,
        answer_check_auth marshal cfg (flagged ctx) zero_message asks true
            (check_authenticated-set ctx) refl,
      )

  check_auth-replaced :
      (ctx : ConnCtx) (i : ℕ) (id : Text)
      → (calls i).replaced ≡ some id
      → (check_auth send (ctx, i)).0 ≢ ok true
  unfolding check_auth sco.CommandStore.get_custom_data
  check_auth-replaced ctx i id k =
      let asks = command server_command_check_auth [] in
      let here : ConnCtx = record { id = id; last_activity = 0; custom_data = none } in
      let answer =
        answer_check_auth marshal cfg here zero_message asks false (flag_unset here refl) refl in
      elim (Fate-cases (calls i).fate) [
        | inl e ↦ ground (arith, answer)
        | inr (inl (x, e)) ↦ ground arith
        | inr (inr (x, e)) ↦ ground arith
      ]

  check_auth-failed :
      (ctx : ConnCtx) (i : ℕ) → (calls i).fate ≢ delivered → (check_auth send (ctx, i)).0 ≢ ok true
  unfolding check_auth
  check_auth-failed ctx i h =
      let (e, failed) = fails (command server_command_check_auth []) ctx i h in ground arith

  required_ok :
      (p : Text) (r : Result Text Bool × (ConnCtx × ℕ))
      → (required send p r).0 ≡ ok tt
      → (r.0 ≡ ok true) × ((required send p r).1 ≡ r.1)
  required_ok p (err e, w) h = absurd cc
  required_ok p (ok true, w) h = (refl, refl)
  required_ok p (ok false, w) h = absurd cc

  -- The token is the server's, both calls get their responses, and the connection is not replaced
  -- between them.
  abbrev pub Accepted : ℕ → Text → Type 0
  Accepted i token =
      (token ≡ cfg.access_token)
      × ((calls i).fate ≡ delivered)
      × ((calls (i + 1)).fate ≡ delivered)
      × ((calls (i + 1)).replaced ≡ none)

  token_auth_ok :
      (ctx : ConnCtx) (i : ℕ) (token : Text)
      → (token_auth send token (ctx, i)).0 ≡ ok true
      → (token ≡ cfg.access_token)
        × ((calls i).fate ≡ delivered)
        × ((token_auth send token (ctx, i)).1
            ≡ (flagged (context_of (calls i).replaced ctx), i + 1))
  token_auth_ok ctx i token h = elim (Fate-delivered (calls i).fate) [
    | yes e ↦ elim (same token cfg.access_token) [
      | yes k ↦ (k, e, rw k (ap (λ r. r.1) (token_auth-right ctx i e)))
      | no k ↦ absurd (token_auth-wrong token ctx i e k h)
    ]
    | no e ↦ absurd (token_auth-failed token ctx i e h)
  ]

  check_auth_ok :
      (ctx : ConnCtx) (i : ℕ)
      → (check_auth send (ctx, i)).0 ≡ ok true
      → ((calls i).fate ≡ delivered) × ((calls i).replaced ≡ none)
  check_auth_ok ctx i h = elim (Fate-delivered (calls i).fate) [
    | yes e ↦ elim (Option-cases (calls i).replaced) [
      | inl k ↦ (e, k)
      | inr (id, k) ↦ absurd (check_auth-replaced ctx i id k h)
    ]
    | no e ↦ absurd (check_auth-failed ctx i e h)
  ]

  authenticate_ok :
      (ctx : ConnCtx) (i : ℕ) (token : Text)
      → (authenticate send token (ctx, i)).0 ≡ ok tt
      → Accepted i token
  unfolding authenticate
  authenticate_ok ctx i token h =
      let first =
        required send (codes "error authenticating with server") (token_auth send token (ctx, i)) in
      let check : Unit {0} → Exec (ConnCtx × ℕ) (Unit {0}) =
        λ _ w. required send (codes "error checking authentication") (check_auth send w) in
      let (_, e1, e2, _) = bind_ok first check tt h in
      let (t, moved) =
        required_ok (codes "error authenticating with server") (token_auth send token (ctx, i))
          e1 in
      let (right, arrived, world) = token_auth_ok ctx i token t in
      let (c, _) =
        required_ok (codes "error checking authentication") (check_auth send first.1) e2 in
      let at = moved ∙ world in
      let (arrived', kept) =
        check_auth_ok (flagged (context_of (calls i).replaced ctx)) (i + 1)
          (sym (ap (λ w. (check_auth send w).0) at) ∙ c) in
      (right, arrived, arrived', kept)

  authenticate-right :
      (ctx : ConnCtx) (i : ℕ)
      → Accepted i cfg.access_token
      → (authenticate send cfg.access_token (ctx, i)).0 ≡ ok tt
  unfolding authenticate
  authenticate-right ctx i (_, h, h', k) = ground (
    arith,
    token_auth-right ctx i h,
    check_auth-kept (context_of (calls i).replaced ctx) (i + 1) h' k,
  )

  -- The agent's authenticate against the server's handlers, over calls of SendCmd that may fail and
  -- connections that may be replaced: it succeeds exactly with the server's access token, if both its
  -- calls get their responses and the connection is not replaced between them.
  pub authenticate_iff :
      (ctx : ConnCtx) (i : ℕ) (token : Text)
      → ((authenticate (loopback marshal cfg calls) token (ctx, i)).0 ≡ ok tt) ↔ Accepted i token
  authenticate_iff ctx i token =
      (authenticate_ok ctx i token, λ h. rw h.0 (authenticate-right ctx i (refl, h.1, h.2, h.3)))
