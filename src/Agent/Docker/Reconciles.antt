-- ===== src/Agent/Docker/Reconciles.antt =====
-- Reconciliation over the Docker runtime.
use sco.Common.{Bool, Option}
use sco.Common.Dict.{Key, text_key}
use sco.Common.Text.{Text}
use sco.Agent.Runtime.{Runtime}
use sco.Agent.DockerClient.{Client, Conversions}
use sco.Agent.Docker.ClientLaws.{Container, ClientLaws}
use sco.Agent.Docker.Views.{list_tasks-returns}
use sco.Agent.Docker.Refines.{docker_runtime}

module _ {F P W : Type 0} ⦃port_key : Key P⦄ (float_eq : F → F → Bool) (go : Conversions F P)
    (client : Client W P) (containers : W → Text → Option (Container P))
    {images : W → Text → Option Text} (laws : ClientLaws client containers images) where
  abbrev pub runtime : Runtime F W
  runtime = docker_runtime go client (list_tasks-returns float_eq go client containers laws)
