-- ===== src/Agent/Docker/RoundTrip.antt =====
-- A container's settings, read back from Docker.
use mathlib.Core.List.{Mem, Perm}
use sco.Common.{
  ℕ, ◌^◌, ◌<◌, ◌≡◌, ◌⊎◌, refl, sym, ap, subst, ◌∙◌, Bool, true, List, [], ◌∷◌, length, All, arith,
}
use sco.Common.Dict.{Key, text_key, lookup, Absent, IsMap}
use sco.Common.Int.{pos, wrap64, times, quotient}
use sco.Common.Result.{ok}
use sco.Common.Text.{Text}
use sco.Agent.Runtime.{TaskConfig, port_at}
use sco.Agent.Runtime.Compare.{SameTask}
use sco.Agent.DockerClient.{PortBinding, Settings, Conversions}
use sco.Agent.Docker.{convert_port_bindings, exposed_into, create_options, info_of}
use sco.Agent.Docker.Ports.{IsCanonical, all-Fresh, all-Absent, bind_ports-exposed}

-- Docker reports the settings that a container was created with; the image's default stands in for
-- a command that was left out, and the image's variables join those that were given.
pub record Reports {P : Type 0} (asked s : Settings P) : Type 0 where
  pub image : s.image ≡ asked.image
  pub cmd : (asked.cmd ≡ []) ⊎ (asked.cmd ≡ s.cmd)
  pub env : All (λ e. Mem e s.env) asked.env
  pub port_bindings : s.port_bindings ≡ asked.port_bindings
  pub binds : Perm asked.binds s.binds
  pub nano_cpus : s.nano_cpus ≡ asked.nano_cpus
  pub memory : s.memory ≡ asked.memory

-- The megabytes of a task as bytes and back, below 2^63 bytes
memory_back :
    (m : ℕ)
    → m < 2 ^ 43
    → quotient (wrap64 (times (wrap64 (times (pos m) 1024)) 1024)) 1048576 ≡ pos m
memory_back m h = ground arith

-- An entry is found in a longer map, too.
found_behind :
    (k v : Text) (m rest : List (Text × Text))
    → Absent k rest
    → All (λ p. port_at m p.0 ≡ p.1) rest
    → All (λ p. port_at ((k, v) ∷ m) p.0 ≡ p.1) rest
unfolding port_at lookup
found_behind k v m [] h a = tt
found_behind k v m ((j, w) ∷ rest) h a = (ground (arith, a.0), found_behind k v m rest h.1 a.1)

-- A map has its own entries.
ports_self : (m : List (Text × Text)) → IsMap m → All (λ p. port_at m p.0 ≡ p.1) m
unfolding port_at lookup
ports_self [] h = tt
ports_self ((k, v) ∷ m) h = (ground arith, found_behind k v m m h.0 (ports_self m h.1))

-- The configurations that Docker reports as they were asked for: a CPU share that comes back equal
-- from billionths of a core, from 0 to 2^43 - 1 MB, and ports that are written as decimals.
pub record Representable {F P : Type 0} (float_eq : F → F → Bool) (go : Conversions F P)
    (t : TaskConfig F) : Type 0 where
  pub cpu : float_eq t.max_cpu (go.of_nanos (go.to_nanos t.max_cpu)) ≡ true
  pub megabytes : ℕ
  pub memory : t.max_memory ≡ pos megabytes
  pub memory_fits : megabytes < 2 ^ 43
  pub keys : IsMap t.exposed_ports
  pub ports : All (λ p. IsCanonical go p.0) t.exposed_ports

-- What GetTaskInfo gives back of a task: everything is as it was asked for, but that the image's
-- command stands in where none was asked for, that there may be more variables, that the volumes may
-- stand in another order, and that the CPU share has gone through billionths of a core.
pub record Reported {F P : Type 0} (go : Conversions F P) (t other : TaskConfig F) : Type 0 where
  pub name : t.name ≡ other.name
  pub image : t.image ≡ other.image
  pub command : (t.command ≡ []) ⊎ (t.command ≡ other.command)
  pub cpu : other.max_cpu ≡ go.of_nanos (go.to_nanos t.max_cpu)
  pub memory : t.max_memory ≡ other.max_memory
  pub variables : All (λ e. Mem e other.environment_variables) t.environment_variables
  pub ports : t.exposed_ports ≡ other.exposed_ports
  pub volumes : Perm t.volumes other.volumes

module _ {F P : Type 0} ⦃port_key : Key P⦄ (go : Conversions F P) (t : TaskConfig F) where
  -- Where the ports of a task are canonical, GetTaskInfo reads them back from the bindings that
  -- createContainer asks for.
  ports_back :
      (bindings : List (P × List PortBinding))
      → IsMap t.exposed_ports
      → All (λ p. IsCanonical go p.0) t.exposed_ports
      → convert_port_bindings go t.exposed_ports ≡ ok bindings
      → exposed_into go bindings [] ≡ t.exposed_ports
  unfolding convert_port_bindings
  ports_back bindings keys canonical h =
      let (more, ran, back) =
        bind_ports-exposed go t.exposed_ports [] keys canonical (all-Fresh go t.exposed_ports) in
      let same_bindings : more ≡ bindings = cc in
      ap (λ b. exposed_into go b []) (sym same_bindings) ∙ back [] (all-Absent go t.exposed_ports)

  -- Take a task with 0 to 2^43 - 1 MB whose ports form a map from keys that ParsePort takes for the
  -- number that they are the decimal of, and a container that was created for it and whose settings
  -- Docker reports as it was asked for them. GetTaskInfo gives back the name, the image, the memory
  -- and the ports of the task, its command unless it has none, all its variables, its volumes up to
  -- their order, and its CPU share as it comes back from billionths of a core.
  pub info_of-Reported :
      (megabytes : ℕ)
      → t.max_memory ≡ pos megabytes
      → megabytes < 2 ^ 43
      → IsMap t.exposed_ports
      → All (λ p. IsCanonical go p.0) t.exposed_ports
      → (cfg_data : Text) (bindings : List (P × List PortBinding)) (s : Settings P)
      → convert_port_bindings go t.exposed_ports ≡ ok bindings
      → Reports (create_options go t cfg_data bindings).settings s
      → Reported go t (info_of go t.name s)
  info_of-Reported megabytes memory fits keys canonical cfg_data bindings s h r = record {
    name = refl;
    image = sym r.image;
    command = r.cmd;
    cpu = ap go.of_nanos r.nano_cpus;
    memory =
        memory
        ∙ (sym (memory_back megabytes fits)
            ∙ ap (λ m. quotient m 1048576)
                (ap (λ m. wrap64 (times (wrap64 (times m 1024)) 1024)) (sym memory)
                  ∙ sym r.memory));
    variables = r.env;
    ports =
        sym (ap (λ b. exposed_into go b []) r.port_bindings ∙ ports_back bindings keys canonical h);
    volumes = r.binds;
  }

  -- Where the CPU share comes back equal, too, CompareTo takes what is reported for the task.
  pub info_of-SameTask :
      (float_eq : F → F → Bool)
      → Representable float_eq go t
      → (cfg_data : Text) (bindings : List (P × List PortBinding)) (s : Settings P)
      → convert_port_bindings go t.exposed_ports ≡ ok bindings
      → Reports (create_options go t cfg_data bindings).settings s
      → SameTask float_eq t (info_of go t.name s)
  info_of-SameTask float_eq fine cfg_data bindings s h r =
      let told =
        info_of-Reported fine.megabytes fine.memory fine.memory_fits fine.keys fine.ports cfg_data
          bindings s h r in
      record {
        name = told.name;
        image = told.image;
        command = told.command;
        cpu = subst (λ n. float_eq t.max_cpu n ≡ true) (sym told.cpu) fine.cpu;
        memory = told.memory;
        variables = told.variables;
        port_count = ap length told.ports;
        ports =
            subst (λ e. All (λ p. port_at e p.0 ≡ p.1) t.exposed_ports) told.ports
              (ports_self t.exposed_ports fine.keys);
        volumes = told.volumes;
      }
