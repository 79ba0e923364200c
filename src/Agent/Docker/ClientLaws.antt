-- ===== src/Agent/Docker/ClientLaws.antt =====
-- What the Docker runtime relies on of Docker, as its API documents it.
use mathlib.Core.List.{Mem}
use sco.Common.{ℕ, ◌≡◌, ◌≢◌, true, List, ◌∷◌, ◌++◌, Option, none, some, All}
use sco.Common.Dict.{text_key, lookup}
use sco.Common.Result.{ok, err}
use sco.Common.Text.{Text, codes}
use sco.Agent.Docker.{sco_server_label, state_running}
use sco.Agent.Docker.RoundTrip.{Reports}
use sco.Agent.DockerClient.{Failure, Summary, Settings, CreateOptions, Inspection, Client}

-- A container of the host
pub record Container (P : Type 0) : Type 0 where
  pub id : Text
  pub image_id : Text
  pub state : Text
  pub labels : List (Text × Text)
  pub settings : Settings P

-- Docker puts a slash before the name of a container.
abbrev pub IsNamed : Text → Summary → Type 0
IsNamed n s = (more : List Text) × (s.names ≡ (47 ∷ n) ∷ more)

-- A summary that tells the state of the container that it names
abbrev pub Lists : {W P : Type 0} → (W → Text → Option (Container P)) → W → Summary → Type 0
Lists {W} {P} containers w s =
    (n : Text) × IsNamed n s × ((c : Container P) × (containers w n ≡ some c) × (s.state ≡ c.state))

-- `containers w n` is the container of the name `n`, and `images w i` the id of what the image `i` is on
-- the host. No name is the beginning of an id.
pub record ClientLaws {W P : Type 0} (client : Client W P)
    (containers : W → Text → Option (Container P)) (images : W → Text → Option Text) : Type 0 where
  -- Pulls and questions change no container.
  pub pull_view : (i m : Text) (w : W) → containers (client.image_pull i w).1 m ≡ containers w m
  pub wait_view : (k : ℕ) (m : Text) (w : W) → containers (client.wait k w).1 m ≡ containers w m
  pub find_view :
      (n m : Text) (w : W) → containers (client.find_container_by_name n w).1 m ≡ containers w m
  pub list_view : (l m : Text) (w : W) → containers (client.container_list l w).1 m ≡ containers w m
  pub inspect_view :
      (n m : Text) (w : W) → containers (client.container_inspect n w).1 m ≡ containers w m
  pub image_view : (i m : Text) (w : W) → containers (client.image_inspect i w).1 m ≡ containers w m
  pub inspect_images : (n i : Text) (w : W) → images (client.container_inspect n w).1 i ≡ images w i
  -- Ids are unique, and the agent has its host for itself.
  pub ids_differ :
      (w : W) (n m : Text) (c d : Container P)
      → containers w n ≡ some c
      → containers w m ≡ some d
      → c.id ≡ d.id
      → n ≡ m
  pub labelled :
      (w : W) (n : Text) (c : Container P)
      → containers w n ≡ some c
      → lookup sco_server_label c.labels ≢ none
  -- The answers
  pub find_ok :
      (n : Text) (w : W) (s : Summary)
      → (client.find_container_by_name n w).0 ≡ ok s
      → (c : Container P) × (containers w n ≡ some c)
        × (s.id ≡ c.id)
        × (s.state ≡ c.state)
        × (s.labels ≡ c.labels)
  pub find_missing :
      (n : Text) (w : W) (f : Failure)
      → (client.find_container_by_name n w).0 ≡ err f
      → f.text ≡ codes "container " ++ n ++ codes " not found"
      → containers w n ≡ none
  pub inspect_ok :
      (n : Text) (w : W) (r : Inspection P)
      → (client.container_inspect n w).0 ≡ ok r
      → (c : Container P) × (containers w n ≡ some c)
        × (r.image_id ≡ c.image_id)
        × (r.settings ≡ c.settings)
  pub inspect_missing :
      (n : Text) (w : W) (f : Failure)
      → (client.container_inspect n w).0 ≡ err f
      → f.is_not_found ≡ true
      → containers w n ≡ none
  pub image_ok :
      (i : Text) (w : W) (id : Text) → (client.image_inspect i w).0 ≡ ok id → images w i ≡ some id
  -- Without further options only running containers are listed.
  pub list_ok :
      (l n : Text) (w : W) (items : List Summary) (c : Container P)
      → (client.container_list l w).0 ≡ ok items
      → containers w n ≡ some c
      → c.state ≡ state_running
      → lookup l c.labels ≢ none
      → (s : Summary) × Mem s items × IsNamed n s
  pub list_true :
      (l : Text) (w : W) (items : List Summary)
      → (client.container_list l w).0 ≡ ok items
      → All (Lists containers w) items
  -- A name is taken once; the new container is as it was asked for.
  pub create_ok :
      (o : CreateOptions P) (w : W) (id : Text)
      → (client.container_create o w).0 ≡ ok id
      → (containers w o.name ≡ none)
        × ((c : Container P) × (containers (client.container_create o w).1 o.name ≡ some c)
            × (c.id ≡ id)
            × Reports o.settings c.settings)
  pub create_frame :
      (o : CreateOptions P) (m : Text) (w : W)
      → o.name ≢ m
      → containers (client.container_create o w).1 m ≡ containers w m
  pub start_ok :
      (n : Text) (c : Container P) (w : W)
      → containers w n ≡ some c
      → (client.container_start c.id w).0 ≡ ok tt
      → containers (client.container_start c.id w).1 n ≡ some (record c { state = state_running })
  pub start_frame :
      (id m : Text) (w : W)
      → ((c : Container P) → containers w m ≡ some c → c.id ≢ id)
      → containers (client.container_start id w).1 m ≡ containers w m
  pub stop_ok :
      (n : Text) (c : Container P) (w : W)
      → containers w n ≡ some c
      → (client.container_stop n w).0 ≡ ok tt
      → (state : Text) × (state ≢ state_running)
        × (containers (client.container_stop n w).1 n ≡ some (record c { state = state }))
  pub stop_frame :
      (n m : Text) (w : W) → n ≢ m → containers (client.container_stop n w).1 m ≡ containers w m
  pub remove_frame :
      (n m : Text) (w : W) → n ≢ m → containers (client.container_remove n w).1 m ≡ containers w m
  pub remove_ok :
      (n : Text) (w : W)
      → (client.container_remove n w).0 ≡ ok tt
      → containers (client.container_remove n w).1 n ≡ none
