-- ===== src/Agent/Docker/Starts.antt =====
-- What StartTask of the Docker runtime leaves of the containers.
use sco.Common.{
  ◌≡◌, ◌≢◌, ◌⊎◌, inl, inr, refl, sym, ap, subst, ◌∙◌, Bool, true, false, List, Option, none, some,
  arith, Bool-cases, Option-cases, if◌then◌else◌,
}
use sco.Common.Dict.{Key, text_key}
use sco.Common.Result.{Result, ok, err}
use sco.Common.Text.{Text, codes}
use sco.Agent.Exec.{bind_ok, bind_cases}
use sco.Agent.Runtime.{TaskConfig, Status, running, text_eq}
use sco.Agent.Runtime.Compare.{SameTask}
use sco.Agent.Reconcile.Laws.{Task}
use sco.Agent.DockerClient.{Failure, Summary, Client, Conversions}
use sco.Agent.Docker.{
  state_running, status_of_state, info_of, create_container, start_container, start_found,
}
use sco.Agent.Docker.RoundTrip.{Representable}
use sco.Agent.Docker.ClientLaws.{Container, ClientLaws}
use sco.Agent.Docker.Creates.{
  create_container-frame, created, start_container-frame, start_container-runs,
}

pub text_eq-true : (a b : Text) → text_eq a b ≡ true → a ≡ b
text_eq-true a b h = ground arith

pub running_state : status_of_state state_running ≡ running
unfolding status_of_state sco.Common.Text.Text-discrete
running_state = refl

pub state_of_running : (s : Text) → status_of_state s ≡ running → s ≡ state_running
unfolding status_of_state
state_of_running s h = ground arith

module _ {F P W : Type 0} ⦃port_key : Key P⦄ (go : Conversions F P) (client : Client W P)
    (containers : W → Text → Option (Container P)) where
  -- The task that a container is
  abbrev pub task_of : Text → Option (Container P) → Option (Task F)
  task_of n none = none
  task_of n (some c) = some (info_of go n c.settings, status_of_state c.state)

  abbrev pub view : W → Text → Option (Task F)
  view w n = task_of n (containers w n)

  pub task_of-some :
      (n : Text) (o : Option (Container P)) (t : TaskConfig F) (s : Status)
      → task_of n o ≡ some (t, s)
      → (c : Container P) × (o ≡ some c)
        × (info_of go n c.settings ≡ t)
        × (status_of_state c.state ≡ s)
  task_of-some n none t s h = absurd cc
  task_of-some n (some c) t s h = (c, refl, cc, cc)

  pub task_of-none : (n : Text) (o : Option (Container P)) → task_of n o ≡ none → o ≡ none
  task_of-none n none h = refl
  task_of-none n (some c) h = absurd cc

  module _ (float_eq : F → F → Bool) {images : W → Text → Option Text}
      (laws : ClientLaws client containers images) where
    -- StartTask, after FindContainerByName, leaves the other containers.
    pub start_found-frame :
        (cfg : TaskConfig F) (m : Text) (r : Result Failure Summary × W)
        → cfg.name ≢ m
        → ((s : Summary)
            → r.0 ≡ ok s
            → (c : Container P) × (containers r.1 cfg.name ≡ some c) × (s.id ≡ c.id))
        → containers (start_found go client cfg r).1 m ≡ containers r.1 m
    unfolding start_found
    start_found-frame cfg m (err f, w) ne h =
        let frame = create_container-frame go client float_eq containers laws cfg m w ne in
        let r = create_container go client cfg w in
        elim (bind_cases r (start_container go client)) [
          | inl (e, failed, q) ↦ ap (λ x. containers x.1 m) q ∙ frame
          | inr (id, made, q) ↦
              let (free, (c, at, own, _)) =
                created go client float_eq containers laws cfg w id made in
              ap (λ x. containers x.1 m) q
              ∙ (start_container-frame go client float_eq containers laws id m r.1
                    (λ d there e. ne (laws.ids_differ r.1 cfg.name m c d at there (own ∙ sym e)))
                  ∙ frame)
        ]
    start_found-frame cfg m (ok s, w) ne h =
        let (c, at, own) = h s refl in
        elim (Bool-cases (text_eq s.state state_running)) [
          | inl e ↦ rw (e, start_found) refl
          | inr e ↦
              rw (e, start_found)
                (start_container-frame go client float_eq containers laws s.id m w
                  (λ d there k. ne (laws.ids_differ w cfg.name m c d at there (sym own ∙ sym k))))
        ]

    -- What StartTask leaves under the name of the task, if it returns no error.
    pub start_found-runs :
        (cfg : TaskConfig F) (r : Result Failure Summary × W)
        → ((s : Summary)
            → r.0 ≡ ok s
            → (c : Container P) × (containers r.1 cfg.name ≡ some c)
              × (s.id ≡ c.id)
              × (s.state ≡ c.state))
        → (start_found go client cfg r).0 ≡ ok tt
        → ((c : Container P) × (containers r.1 cfg.name ≡ some c)
            × (containers (start_found go client cfg r).1 cfg.name
                ≡ some (record c { state = state_running })))
          ⊎ ((containers r.1 cfg.name ≡ none)
              × ((c : Container P) × (containers (start_found go client cfg r).1 cfg.name
                    ≡ some (record c { state = state_running }))
                  × (Representable float_eq go cfg
                      → SameTask float_eq cfg (info_of go cfg.name c.settings))))
    unfolding start_found
    start_found-runs cfg (err f, w) h k =
        let r = create_container go client cfg w in
        let (id, made, started, q) = bind_ok r (start_container go client) tt k in
        let (free, (c, at, own, fine)) = created go client float_eq containers laws cfg w id made in
        inr (
          free,
          (
            c,
            ap (λ x. containers x.1 cfg.name) q
                ∙ start_container-runs go client float_eq containers laws id cfg.name c r.1 at own
                    started,
            fine,
          ),
        )
    start_found-runs cfg (ok s, w) h k =
        let (c, at, own, state) = h s refl in
        elim (Bool-cases (text_eq s.state state_running)) [
          | inl e ↦
              let runs : c.state ≡ state_running =
                sym state ∙ text_eq-true s.state state_running e in
              inl (c, at, rw (e, start_found) (at ∙ ap (λ x. some (record c { state = x })) runs))
          | inr e ↦ inl (
            c,
            at,
            rw (e, start_found)
                (start_container-runs go client float_eq containers laws s.id cfg.name c w at
                  (sym own)
                  (subst
                    (λ b. (if◌then◌else◌ b (ok tt, w) (start_container go client s.id w)).0 ≡ ok tt)
                    e k)),
          )
        ]
