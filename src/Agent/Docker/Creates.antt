-- ===== src/Agent/Docker/Creates.antt =====
-- What the calls of the Docker runtime answer, and how it makes and starts containers.
use sco.Common.{
  ◌≡◌, ◌≢◌, ◌⊎◌, inl, inr, refl, sym, ap, subst, ◌∙◌, Bool, true, List, ◌++◌, Option, none, some,
  arith,
}
use sco.Common.Dict.{Key, text_key, lookup}
use sco.Common.Result.{Result, ok, err}
use sco.Common.Text.{Text, codes}
use sco.Agent.Runtime.{TaskConfig, Status, unknown}
use sco.Agent.Runtime.Compare.{SameTask}
use sco.Agent.DockerClient.{Failure, Summary, PortBinding, Inspection, Client, Conversions}
use sco.Agent.Docker.{
  sco_server_label, state_running, status_of_state, returned, found_status, inspected,
  convert_port_bindings, create_options, info_of, create_container, start_container,
}
use sco.Agent.Docker.RoundTrip.{Representable, info_of-SameTask}
use sco.Agent.Docker.ClientLaws.{Container, ClientLaws}

pub returned-world : {W A : Type 0} (r : Result Failure A × W) → (returned r).1 ≡ r.1
returned-world (ok a, w) = refl
returned-world (err f, w) = refl

pub returned_ok :
    {W A : Type 0} (r : Result Failure A × W) (a : A) → (returned r).0 ≡ ok a → r.0 ≡ ok a
returned_ok (ok b, w) a h = ground arith
returned_ok (err f, w) a h = absurd cc

pub found_status-world :
    {W : Type 0} (n : Text) (r : Result Failure Summary × W) → (found_status n r).1 ≡ r.1
unfolding found_status
found_status-world n (err f, w) = ground arith
found_status-world n (ok s, w) = ground arith

-- What a status tells of the answer to FindContainerByName
pub found_status_inversion :
    {W : Type 0} (n : Text) (r : Result Failure Summary × W) (s : Status)
    → (found_status n r).0 ≡ ok s
    → ((f : Failure) × (r.0 ≡ err f)
        × (f.text ≡ codes "container " ++ n ++ codes " not found")
        × (s ≡ unknown))
      ⊎ ((x : Summary) × (r.0 ≡ ok x)
          × (lookup sco_server_label x.labels ≢ none → s ≡ status_of_state x.state))
unfolding found_status
found_status_inversion n (err f, w) s h = inl (f, refl, ground arith, ground arith)
found_status_inversion n (ok x, w) s h = inr (x, refl, ground arith)

module _ {F P : Type 0} ⦃port_key : Key P⦄ (go : Conversions F P) where
  pub inspected-world :
      {W : Type 0} (n : Text) (r : Result Failure (Inspection P) × W) → (inspected go n r).1 ≡ r.1
  unfolding inspected
  inspected-world n (err f, w) = ground arith
  inspected-world n (ok x, w) = refl

  pub inspected_inversion :
      {W : Type 0} (n : Text) (r : Result Failure (Inspection P) × W) (o : Option (TaskConfig F))
      → (inspected go n r).0 ≡ ok o
      → ((f : Failure) × (r.0 ≡ err f) × (f.is_not_found ≡ true) × (o ≡ none))
        ⊎ ((x : Inspection P) × (r.0 ≡ ok x) × (o ≡ some (info_of go n x.settings)))
  unfolding inspected
  inspected_inversion n (err f, w) o h = inl (f, refl, ground arith, ground arith)
  inspected_inversion n (ok x, w) o h = inr (x, refl, cc)

  module _ {W : Type 0} (client : Client W P) where
    -- createContainer fails before it calls the client, or asks it for the container.
    create_container_cases :
        (cfg : TaskConfig F) (w : W)
        → ((e : Text) × (create_container go client cfg w ≡ (err e, w)))
          ⊎ ((cfg_data : Text) × (bindings : List (P × List PortBinding)) × (convert_port_bindings
                  go cfg.exposed_ports
                ≡ ok bindings)
              × (create_container go client cfg w
                  ≡ returned (client.container_create (create_options go cfg cfg_data bindings) w)))
    unfolding create_container
    create_container_cases cfg w =
        go_on (go.marshal cfg) (convert_port_bindings go cfg.exposed_ports) refl refl
      where
        go_on :
            (m : Result Text Text) (b : Result Text (List (P × List PortBinding)))
            → go.marshal cfg ≡ m
            → convert_port_bindings go cfg.exposed_ports ≡ b
            → ((e : Text) × (create_container go client cfg w ≡ (err e, w)))
              ⊎ ((cfg_data : Text) × (bindings : List (P × List PortBinding))
                  × (convert_port_bindings go cfg.exposed_ports ≡ ok bindings)
                  × (create_container go client cfg w
                      ≡ returned
                          (client.container_create (create_options go cfg cfg_data bindings) w)))
        go_on (err e) b em eb = inl (e, rw (em, create_container) refl)
        go_on (ok d) (err e) em eb =
            inl (e, rw (em, create_container) (rw (eb, create_container) refl))
        go_on (ok d) (ok bs) em eb =
            inr (d, bs, eb, rw (em, create_container) (rw (eb, create_container) refl))

    module _ (float_eq : F → F → Bool) (containers : W → Text → Option (Container P))
        {images : W → Text → Option Text} (laws : ClientLaws client containers images) where
      pub create_container-frame :
          (cfg : TaskConfig F) (m : Text) (w : W)
          → cfg.name ≢ m
          → containers (create_container go client cfg w).1 m ≡ containers w m
      create_container-frame cfg m w ne = elim (create_container_cases cfg w) [
        | inl (e, h) ↦ ap (λ r. containers r.1 m) h
        | inr (d, bs, eb, h) ↦
            let o = create_options go cfg d bs in
            ap (λ r. containers r.1 m) h
            ∙ (ap (λ v. containers v m) (returned-world (client.container_create o w))
                ∙ laws.create_frame o m w ne)
      ]

      -- A container that createContainer made
      pub created :
          (cfg : TaskConfig F) (w : W) (id : Text)
          → (create_container go client cfg w).0 ≡ ok id
          → (containers w cfg.name ≡ none)
            × ((c : Container P) × (containers (create_container go client cfg w).1 cfg.name
                  ≡ some c)
                × (c.id ≡ id)
                × (Representable float_eq go cfg
                    → SameTask float_eq cfg (info_of go cfg.name c.settings)))
      created cfg w id h = elim (create_container_cases cfg w) [
        | inl (e, k) ↦ absurd (cc (ap (λ r. r.0) k))
        | inr (d, bs, eb, k) ↦
            let o = create_options go cfg d bs in
            let (free, (c, at, own, same_settings)) =
              laws.create_ok o w id
                (returned_ok (client.container_create o w) id (sym (ap (λ r. r.0) k) ∙ h)) in
            (
              free,
              (
                c,
                ap (λ r. containers r.1 cfg.name) k
                    ∙ (ap (λ v. containers v cfg.name)
                          (returned-world (client.container_create o w))
                        ∙ at),
                own,
                λ fine. info_of-SameTask go cfg float_eq fine d bs c.settings eb same_settings,
              ),
            )
      ]

      pub start_container-frame :
          (id m : Text) (w : W)
          → ((c : Container P) → containers w m ≡ some c → c.id ≢ id)
          → containers (start_container go client id w).1 m ≡ containers w m
      unfolding start_container
      start_container-frame id m w other =
          ap (λ v. containers v m) (returned-world (client.container_start id w))
          ∙ laws.start_frame id m w other

      pub start_container-runs :
          (id n : Text) (c : Container P) (w : W)
          → containers w n ≡ some c
          → c.id ≡ id
          → (start_container go client id w).0 ≡ ok tt
          → containers (start_container go client id w).1 n
            ≡ some (record c { state = state_running })
      unfolding start_container
      start_container-runs id n c w at own h =
          ap (λ v. containers v n) (returned-world (client.container_start id w))
          ∙ subst
              (λ i.
                (client.container_start i w).0 ≡ ok tt
                → containers (client.container_start i w).1 n
                  ≡ some (record c { state = state_running }))
              own (laws.start_ok n c w at) (returned_ok (client.container_start id w) tt h)
