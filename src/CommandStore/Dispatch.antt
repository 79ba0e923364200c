-- ===== src/CommandStore/Dispatch.antt =====
-- Which handler Execute runs, and under which middlewares.
use mathlib.Core.List.{foldl, foldr, foldl-append, reverse, reverse-cons}
use sco.Common.{
  ℕ, ◌≡◌, refl, ap, ◌∙◌, ite, Option, none, some, arith, List, [], ◌∷◌, ◌++◌, map, Option-cases,
  inl, inr, sym, if_pos, if_neg,
}
use sco.Common.Run.{Run, done, ◌>>=◌}
use sco.Common.Dict.{nat_key, same, lookup, insert, lookup-insert_self, lookup-insert_ne}
use sco.Protocol.{Message, Command, Response}
use sco.CommandStore.{
  Store, ConnCtx, Handler, Middleware, wrap, register_handler, register_middleware, execute,
  command_already_registered, not_found, answer,
}

-- The first middleware that was registered is the outermost, and the last the innermost.
pub wrap-eq-foldr :
    (ms : List Middleware) (h : Handler)
    → wrap ms h ≡ foldr (λ (m : Middleware) (g : Handler). m g) h ms
unfolding wrap
wrap-eq-foldr [] h = refl
wrap-eq-foldr (m ∷ ms) h =
    ap (foldl (λ (g : Handler) (v : Middleware). v g) h) (reverse-cons m ms)
    ∙ foldl-append (λ (g : Handler) (v : Middleware). v g) h (reverse ms) (m ∷ [])
    ∙ ap m (wrap-eq-foldr ms h)

-- A command's handler, run under the middlewares of the store.
abbrev pub run_wrapped :
    Store → Handler → ConnCtx → Message → Command → Run (Option Response × ConnCtx)
run_wrapped s h ctx msg cmd = do
  (r, ctx') ← foldr (λ (m : Middleware) (g : Handler). m g) h s.middlewares ctx msg cmd
  done (answer r, ctx')

execute-lookup :
    (s : Store) (ctx : ConnCtx) (msg : Message) (cmd : Command) (found : Option Handler)
    → lookup cmd.id s.commands ≡ found
    → execute s ctx msg cmd ≡ (elim found [
      | none ↦ done (some (not_found cmd.id), ctx)
      | some h ↦ run_wrapped s h ctx msg cmd
    ])
unfolding execute
execute-lookup s ctx msg cmd none e = rw (e, execute)
execute-lookup s ctx msg cmd (some h) e = rw (e, execute) (rw (wrap-eq-foldr s.middlewares h))

registered :
    (s t : Store) (id : ℕ) (h : Handler)
    → register_handler id h s ≡ (none, t)
    → (lookup id s.commands ≡ none) × (t ≡ record s { commands = insert id h s.commands })
unfolding register_handler
registered s t id h e = ground arith

-- After a handler was registered for a command, Execute runs it, under the middlewares, for this
-- command, and answers every other command as before.
pub execute-register_handler :
    (s t : Store) (id : ℕ) (h : Handler) (ctx : ConnCtx) (msg : Message) (cmd : Command)
    → register_handler id h s ≡ (none, t)
    → execute t ctx msg cmd
      ≡ ite (same id cmd.id) (run_wrapped s h ctx msg cmd) (execute s ctx msg cmd)
execute-register_handler s t id h ctx msg cmd e =
    let (fresh, ht) = registered s t id h e in
    rw ht (elim (same id cmd.id) [
      | yes p ↦
          rw (if_pos _ p)
            (execute-lookup _ ctx msg cmd (some h) (lookup-insert_self id cmd.id h s.commands p))
      | no p ↦ rw (if_neg _ p) (
          execute-lookup (record s { commands = insert id h s.commands }) ctx msg cmd
            (lookup cmd.id s.commands) (lookup-insert_ne id cmd.id h s.commands p)
          ∙ sym (execute-lookup s ctx msg cmd (lookup cmd.id s.commands) refl))
    ])

-- A command is registered once: a second handler for it is refused, and the store stays.
pub register_handler_twice :
    (s t : Store) (id : ℕ) (h g : Handler)
    → register_handler id h s ≡ (none, t)
    → register_handler id g t ≡ (some command_already_registered, t)
unfolding register_handler
register_handler_twice s t id h g e =
    let (fresh, ht) = registered s t id h e in
    rw ht (rw (lookup-insert_self id id h s.commands refl, register_handler))

-- Every handler of a store put under a middleware.
abbrev pub under : Middleware → List (ℕ × Handler) → List (ℕ × Handler)
under m cs = map (λ p. (p.0, m p.1)) cs

lookup-under :
    (m : Middleware) (id : ℕ) (cs : List (ℕ × Handler))
    → lookup id (under m cs) ≡ (elim (lookup id cs) [ none ↦ none | some h ↦ some (m h) ])
unfolding lookup
lookup-under m id [] = refl
lookup-under m id ((j, h) ∷ cs) = ground (arith, lookup-under m id cs)

foldr_last :
    (m : Middleware) (h : Handler) (ms : List Middleware)
    → foldr (λ (v : Middleware) (g : Handler). v g) h (ms ++ m ∷ [])
      ≡ foldr (λ (v : Middleware) (g : Handler). v g) (m h) ms
foldr_last m h [] = refl
foldr_last m h (v ∷ ms) = ap v (foldr_last m h ms)

-- A middleware that is registered after others is the innermost: Execute then answers every command
-- as if each handler had been registered inside it.
pub execute-register_middleware :
    (s : Store) (m : Middleware) (ctx : ConnCtx) (msg : Message) (cmd : Command)
    → execute (register_middleware m s) ctx msg cmd
      ≡ execute (record s { commands = under m s.commands }) ctx msg cmd
unfolding register_middleware
execute-register_middleware s m ctx msg cmd = elim (Option-cases (lookup cmd.id s.commands)) [
  | inl e ↦
      execute-lookup (register_middleware m s) ctx msg cmd none e
      ∙ sym (
          execute-lookup (record s { commands = under m s.commands }) ctx msg cmd none
            (ground (arith, lookup-under m cmd.id s.commands)))
  | inr (h, e) ↦
      execute-lookup (register_middleware m s) ctx msg cmd (some h) e
      ∙ (rw (foldr_last m h s.middlewares) refl
          ∙ sym (
              execute-lookup (record s { commands = under m s.commands }) ctx msg cmd (some (m h))
                (ground (arith, lookup-under m cmd.id s.commands))))
]
