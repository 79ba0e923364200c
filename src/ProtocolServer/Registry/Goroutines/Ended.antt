-- ===== src/ProtocolServer/Registry/Goroutines/Ended.antt =====
-- What Disconnect ends, whatever the goroutines of a Server do afterwards.
use sco.Common.{
  ℕ, ◌≤◌, ◌≡◌, inl, inr, refl, sym, subst, ◌∙◌, Option, none, some, arith, Option-cases, Bool-cases,
}
use sco.Common.Result.{err}
use sco.Common.Text.{Text}
use sco.Common.Dict.{text_key}
use sco.Common.Family.{update}
use sco.Protocol.Frame.{Stream}
use sco.ProtocolServer.Connection.{client_not_connected}
use sco.ProtocolServer.Registry.{
  World, disconnect, close_optional, register_reconnected, client_target,
}
use sco.ProtocolServer.Registry.Goroutines.{
  Pc, idle, disconnecting, Move, connect, connect_failed, replaced, disconnect_locked, disconnected,
  accept_locked, message, last_message, close_served, retire_locked, lost, stop_checking,
  stop_waiting, ring, stop_dialing, retry, dialed, discard, work, System, Step, pick,
}
use sco.ProtocolServer.Registry.Goroutines.Moves.{Reach, step, Reach-Inv}
use sco.ProtocolServer.Registry.Goroutines.Safety.{client_target-none}

-- Steps from one state to another
pub data Trace (generate_id : ℕ → Text) : System → System → Type 0 where
  stay : {s : System} → Trace generate_id s s
  further :
      {s s' s'' : System}
      → Trace generate_id s s'
      → Step generate_id s' s''
      → Trace generate_id s s''

module _ (generate_id : ℕ → Text) where
  -- Contexts are only added, and without a new one none is stored where none was.
  Ends : World → World → Type 0
  Ends w w' =
      (w.next_ctx ≤ w'.next_ctx)
      × (w'.next_ctx ≡ w.next_ctx → w.server.client_cancel ≡ none → w'.server.client_cancel ≡ none)

  same_server :
      (w w' : World)
      → w'.server.client_cancel ≡ w.server.client_cancel
      → w'.next_ctx ≡ w.next_ctx
      → Ends w w'
  unfolding Ends
  same_server w w' h k = (omega arith, λ _ e. h ∙ e)

  close_optional-Ends : (o : Option ℕ) (w : World) → Ends w (close_optional o w)
  close_optional-Ends none w = same_server w w refl refl
  close_optional-Ends (some p) w = same_server w (close_optional (some p) w) refl refl

  register_reconnected-Ends :
      (ctx : ℕ) (stream : Stream) (w : World)
      → Ends w (register_reconnected generate_id ctx stream w).1
  register_reconnected-Ends ctx stream w =
      let w' = (register_reconnected generate_id ctx stream w).1 in
      elim (Bool-cases (w.cancelled ctx)) [
        | inl e ↦ same_server w w' (rw e refl) (rw e refl)
        | inr e ↦ same_server w w' (rw e refl) (rw e refl)
      ]

  Move-Ends : {w w' : World} {pc pc' : Pc} → Move generate_id w pc w' pc' → Ends w w'
  unfolding Ends
  Move-Ends (connect addr stream) = (omega arith, λ h. absurd (omega arith))
  Move-Ends {w} (connect_failed error) = (omega arith, λ _ e. e)
  Move-Ends {w} (replaced {ctx} {addr} {p} {previous}) = close_optional-Ends previous w
  Move-Ends disconnect_locked = (omega arith, λ h k. refl)
  Move-Ends {w} (disconnected {previous}) = close_optional-Ends previous w
  Move-Ends {w} (accept_locked stream) = (omega arith, λ _ e. e)
  Move-Ends {w} (message env c e) = (omega arith, λ _ e. e)
  Move-Ends {w} (last_message env c e) = (omega arith, λ _ e. e)
  Move-Ends {w} close_served = (omega arith, λ _ e. e)
  Move-Ends {w} retire_locked = (omega arith, λ _ e. e)
  Move-Ends {w} (lost h) = (omega arith, λ _ e. e)
  Move-Ends {w} (stop_checking h) = (omega arith, λ _ e. e)
  Move-Ends {w} (stop_waiting h) = (omega arith, λ _ e. e)
  Move-Ends {w} ring = (omega arith, λ _ e. e)
  Move-Ends {w} (stop_dialing h) = (omega arith, λ _ e. e)
  Move-Ends {w} (retry h) = (omega arith, λ _ e. e)
  Move-Ends {w} (dialed {ctx} stream) = register_reconnected-Ends ctx stream w
  Move-Ends {w} discard = (omega arith, λ _ e. e)
  Move-Ends {w} (work p c h k) = (omega arith, λ _ e. e)

  Trace-Ends : {s s' : System} → Trace generate_id s s' → Ends s.world s'.world
  unfolding Ends
  Trace-Ends {s} stay = same_server s.world s.world refl refl
  Trace-Ends (further path (pick i m)) =
      let (more, keep) = Trace-Ends path in
      let (more', keep') = Move-Ends m in
      (omega arith, λ h k. keep' (omega arith) (keep (omega arith) k))

  Trace-Reach :
      {s s' : System} → Reach generate_id s → Trace generate_id s s' → Reach generate_id s'
  Trace-Reach reached stay = reached
  Trace-Reach reached (further path move) = step (Trace-Reach reached path) move

-- With ids that are distinct: once the locked section of Disconnect has run in a state reached, sends
-- report that the client is not connected in every later state, as long as no ConnectTo has dialled
-- and registered in between, whatever the retry loops, senders and accepted connections do.
pub disconnect-lasts :
    (generate_id : ℕ → Text) (distinct : (p q : ℕ) → generate_id p ≡ generate_id q → p ≡ q)
    {s s' : System}
    → Reach generate_id s
    → (i : ℕ) → s.threads i ≡ idle
    → Trace generate_id
        (record {
          world = (disconnect s.world).1;
          threads = update s.threads i (disconnecting s.world.server.client_conn);
        })
        s'
    → s'.world.next_ctx ≡ s.world.next_ctx
    → client_target s'.world ≡ err client_not_connected
unfolding Ends
disconnect-lasts generate_id distinct {s} {s'} reached i at path same_ctx =
    let go : Move generate_id s.world (s.threads i) (disconnect s.world).1
        (disconnecting s.world.server.client_conn) =
      subst
        (λ pc.
          Move generate_id s.world pc (disconnect s.world).1
            (disconnecting s.world.server.client_conn))
        (sym at) disconnect_locked in
    let inv =
      Reach-Inv generate_id distinct (Trace-Reach generate_id (step reached (pick i go)) path) in
    elim (Option-cases s'.world.server.client_conn) [
      | inl e ↦ client_target-none s'.world e
      | inr (p, e) ↦
          let (found, (j, c, h, k, stored)) = inv.client p e in
          absurd (cc ((Trace-Ends generate_id path).1 same_ctx refl))
    ]
