-- ===== src/Agent/Runtime/Compare.antt =====
-- When two task configurations count as equal.
use mathlib.Core.List.{Mem, Perm, mem-cons, not-mem-nil}
use mathlib.Core.Logic.Or
use sco.Common.{
  ◌≡◌, ◌≢◌, ◌↔◌, ◌⊎◌, refl, sym, some, Bool, true, false, ltb, not, ◌&&◌, List, [], ◌∷◌, length,
  All, arith,
}
use sco.Common.Text.{Text}
use sco.Common.Dict.{text_key, same, lookup}
use sco.Common.Sort.{sort, sort_iff}
use sco.Agent.Runtime.{
  TaskConfig, texts_eq, contains, all_contained, port_at, ports_match, compare_to,
}

texts_eq_iff : (xs ys : List Text) → (texts_eq xs ys ≡ true) ↔ (xs ≡ ys)
texts_eq_iff [] [] = ground arith
texts_eq_iff [] (y ∷ ys) = ground arith
texts_eq_iff (x ∷ xs) [] = ground arith
texts_eq_iff (x ∷ xs) (y ∷ ys) = ground (arith, texts_eq_iff xs ys)

contains→mem : (xs : List Text) (e : Text) → contains xs e ≡ true → Mem e xs
unfolding contains
contains→mem [] e h = cc
contains→mem (x ∷ xs) e h = elim (same x e) [
  | yes p ↦ mem-cons.1 (Or.inl (sym p))
  | no p ↦ mem-cons.1 (Or.inr (contains→mem xs e (ground arith)))
]

bool_set : (a b : Bool) → IsProp (a ≡ b)
bool_set = hlevel

mem→contains : (xs : List Text) (e : Text) → Mem e xs → contains xs e ≡ true
unfolding contains
mem→contains [] e m = absurd (not-mem-nil m)
mem→contains (x ∷ xs) e m =
    Or.elim (bool_set _ _) (mem-cons.0 m) (λ p. ground arith)
      (λ k. ground (arith, mem→contains xs e k))

all_contained_iff :
    (es other : List Text) → (all_contained es other ≡ true) ↔ All (λ e. Mem e other) es
unfolding all_contained
all_contained_iff [] other = (λ h. tt, λ h. refl)
all_contained_iff (e ∷ es) other = (
  λ h. (contains→mem other e (ground arith), (all_contained_iff es other).0 (ground arith)),
  λ h. ground (arith, mem→contains other e h.0, (all_contained_iff es other).1 h.1),
)

ports_match_iff :
    (ports other : List (Text × Text))
    → (ports_match ports other ≡ true) ↔ All (λ p. port_at other p.0 ≡ p.1) ports
unfolding ports_match
ports_match_iff [] other = (λ h. tt, λ h. refl)
ports_match_iff ((k, v) ∷ ports) other = ground (arith, ports_match_iff ports other)

-- What CompareTo asks, in words: the same name, image and memory, an equal CPU share, the wanted
-- command or none wanted, every wanted variable, as many ports, at each wanted port what is wanted
-- where a missing port counts as the empty text, and the same volumes in any order.
pub record SameTask {F : Type 0} (float_eq : F → F → Bool) (t other : TaskConfig F) : Type 0 where
  pub name : t.name ≡ other.name
  pub image : t.image ≡ other.image
  pub command : (t.command ≡ []) ⊎ (t.command ≡ other.command)
  pub cpu : float_eq t.max_cpu other.max_cpu ≡ true
  pub memory : t.max_memory ≡ other.max_memory
  pub variables : All (λ e. Mem e other.environment_variables) t.environment_variables
  pub port_count : length t.exposed_ports ≡ length other.exposed_ports
  pub ports : All (λ p. port_at other.exposed_ports p.0 ≡ p.1) t.exposed_ports
  pub volumes : Perm t.volumes other.volumes

command_iff :
    (xs ys : List Text)
    → (((ltb 0 (length xs) && not (texts_eq xs ys)) ≡ false)) ↔ ((xs ≡ []) ⊎ (xs ≡ ys))
command_iff [] ys = ground arith
command_iff (x ∷ xs) ys = ground (arith, texts_eq_iff (x ∷ xs) ys)

module _ {F : Type 0} (float_eq : F → F → Bool) (t other : TaskConfig F) where
  -- The tests of CompareTo, one by one.
  abbrev Tests : Type 0
  Tests =
      (t.name ≡ other.name)
      × (t.image ≡ other.image)
      × ((ltb 0 (length t.command) && not (texts_eq t.command other.command)) ≡ false)
      × (float_eq t.max_cpu other.max_cpu ≡ true)
      × (t.max_memory ≡ other.max_memory)
      × (all_contained t.environment_variables other.environment_variables ≡ true)
      × (length t.exposed_ports ≡ length other.exposed_ports)
      × (ports_match t.exposed_ports other.exposed_ports ≡ true)
      × (texts_eq (sort t.volumes) (sort other.volumes) ≡ true)

  passed : compare_to float_eq t other ≡ true → Tests
  unfolding compare_to
  passed h = ground arith

  passes : Tests → compare_to float_eq t other ≡ true
  unfolding compare_to
  passes h = ground arith

  -- CompareTo returns true exactly on what it takes for the same task.
  pub compare_to_iff : (compare_to float_eq t other ≡ true) ↔ SameTask float_eq t other
  compare_to_iff = (
    λ h.
        let (n, i, c, f, m, e, l, p, v) = passed h in
        record {
          name = n;
          image = i;
          command = (command_iff t.command other.command).0 c;
          cpu = f;
          memory = m;
          variables = (all_contained_iff t.environment_variables other.environment_variables).0 e;
          port_count = l;
          ports = (ports_match_iff t.exposed_ports other.exposed_ports).0 p;
          volumes = (sort_iff t.volumes other.volumes).0 ((texts_eq_iff _ _).0 v);
        },
    λ s. passes (
      s.name,
      s.image,
      (command_iff t.command other.command).1 s.command,
      s.cpu,
      s.memory,
      (all_contained_iff t.environment_variables other.environment_variables).1 s.variables,
      s.port_count,
      (ports_match_iff t.exposed_ports other.exposed_ports).1 s.ports,
      (texts_eq_iff _ _).1 ((sort_iff t.volumes other.volumes).1 s.volumes),
    ),
  )

-- Every wanted port is exposed, to the wanted host port.
abbrev pub Exposes : List (Text × Text) → List (Text × Text) → Type 0
Exposes other ports = All (λ p. lookup p.0 other ≡ some p.1) ports

-- `other` is what `t` wants, and has no further ports: the same name, image and memory, an equal CPU
-- share, the wanted command or none wanted, every wanted variable, the same ports, and the same
-- volumes in any order.
pub record Wants {F : Type 0} (float_eq : F → F → Bool) (t other : TaskConfig F) : Type 0 where
  pub name : t.name ≡ other.name
  pub image : t.image ≡ other.image
  pub command : (t.command ≡ []) ⊎ (t.command ≡ other.command)
  pub cpu : float_eq t.max_cpu other.max_cpu ≡ true
  pub memory : t.max_memory ≡ other.max_memory
  pub variables : All (λ e. Mem e other.environment_variables) t.environment_variables
  pub port_count : length t.exposed_ports ≡ length other.exposed_ports
  pub ports : Exposes other.exposed_ports t.exposed_ports
  pub volumes : Perm t.volumes other.volumes

port_at-lookup :
    (other : List (Text × Text)) (k v : Text)
    → v ≢ []
    → (port_at other k ≡ v) ↔ (lookup k other ≡ some v)
unfolding port_at
port_at-lookup other k v h = ground arith

ports_at_iff :
    (other ports : List (Text × Text))
    → All (λ p. p.1 ≢ []) ports
    → All (λ p. port_at other p.0 ≡ p.1) ports ↔ Exposes other ports
ports_at_iff other [] h = (λ a. a, λ a. a)
ports_at_iff other ((k, v) ∷ ports) h =
    let here = port_at-lookup other k v h.0 in
    let rest = ports_at_iff other ports h.1 in
    (λ a. (here.0 a.0, rest.0 a.1), λ a. (here.1 a.0, rest.1 a.1))

-- CompareTo, for a wanted configuration that maps no port to the empty text: it returns true exactly
-- on a configuration with the same name, image and memory, an equal CPU share, the wanted command
-- unless none is wanted, every wanted variable, as many ports and among them each wanted one with its
-- host port, and the same volumes in any order.
pub compare_to-Wants :
    {F : Type 0} (float_eq : F → F → Bool) (t other : TaskConfig F)
    → All (λ p. p.1 ≢ []) t.exposed_ports
    → (compare_to float_eq t other ≡ true) ↔ Wants float_eq t other
compare_to-Wants float_eq t other h =
    let iff = compare_to_iff float_eq t other in
    let at_ports = ports_at_iff other.exposed_ports t.exposed_ports h in
    (
      λ e.
          let s = iff.0 e in
          record {
            name = s.name;
            image = s.image;
            command = s.command;
            cpu = s.cpu;
            memory = s.memory;
            variables = s.variables;
            port_count = s.port_count;
            ports = at_ports.0 s.ports;
            volumes = s.volumes;
          },
      λ s. iff.1 (record {
        name = s.name;
        image = s.image;
        command = s.command;
        cpu = s.cpu;
        memory = s.memory;
        variables = s.variables;
        port_count = s.port_count;
        ports = at_ports.1 s.ports;
        volumes = s.volumes;
      }),
    )
