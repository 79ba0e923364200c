-- ===== src/Tests/Codec.antt =====
-- A writing of configurations as lists of numbers, which can be read back; it stands in for JSON.
use sco.Common.{
  ℕ, zero, suc, ◌==◌, ◌≡◌, refl, sym, ap, ◌∙◌, List, [], ◌∷◌, ◌++◌, length, append-nil,
  append_assoc, if◌then◌else◌,
}
use sco.Common.Int.{ℤ, pos, negsuc}
use sco.Common.Text.{Text}
use sco.SharedModels.{NodeTask}
use sco.Server.Config.{Config}

pub record Codec (A : Type 0) : Type 0 where
  pub put : A → List ℕ
  pub get : List ℕ → A × List ℕ
  pub get-put : (a : A) (rest : List ℕ) → get (put a ++ rest) ≡ (a, rest)

abbrev first : List ℕ → ℕ × List ℕ
first [] = (0, [])
first (n ∷ rest) = (n, rest)

abbrev number : Codec ℕ
number = record { put = λ n. n ∷ []; get = first; get-put = λ n rest. refl }

module _ {A B : Type 0} (c : Codec A) where
  abbrev both : Codec B → Codec (A × B)
  both d = record {
    put = λ p. c.put p.0 ++ d.put p.1;
    get = λ xs. let p = c.get xs in let q = d.get p.1 in ((p.0, q.0), q.1);
    get-put = λ p rest.
        ap (λ xs. let r = c.get xs in let q = d.get r.1 in ((r.0, q.0), q.1))
          (append_assoc (c.put p.0) (d.put p.1) rest)
        ∙ (ap (λ r. let q = d.get r.1 in ((r.0, q.0), q.1)) (c.get-put p.0 (d.put p.1 ++ rest))
            ∙ ap (λ q. ((p.0, q.0), q.1)) (d.get-put p.1 rest));
  }

  abbrev along : (f : A → B) (g : B → A) → ((b : B) → f (g b) ≡ b) → Codec B
  along f g back = record {
    put = λ b. c.put (g b);
    get = λ xs. let p = c.get xs in (f p.0, p.1);
    get-put =
        λ b rest. ap (λ p. (f p.0, p.1)) (c.get-put (g b) rest) ∙ ap (λ x. (x, rest)) (back b);
  }

module _ {A : Type 0} (c : Codec A) where
  abbrev put_all : List A → List ℕ
  put_all [] = []
  put_all (a ∷ list) = c.put a ++ put_all list

  abbrev get_all : ℕ → List ℕ → List A × List ℕ
  get_all zero xs = ([], xs)
  get_all (suc n) xs = let p = c.get xs in let q = get_all n p.1 in (p.0 ∷ q.0, q.1)

  pub get_all-put_all :
      (list : List A) (rest : List ℕ) → get_all (length list) (put_all list ++ rest) ≡ (list, rest)
  get_all-put_all [] rest = refl
  get_all-put_all (a ∷ list) rest =
      let tail : List ℕ → (A × List ℕ) → List A × List ℕ =
        λ xs p. let q = get_all (length list) p.1 in (p.0 ∷ q.0, q.1) in
      ap (λ xs. tail xs (c.get xs)) (append_assoc (c.put a) (put_all list) rest)
      ∙ (ap (tail []) (c.get-put a (put_all list ++ rest))
          ∙ ap (λ q. (a ∷ q.0, q.1)) (get_all-put_all list rest))

  -- The number of the elements, and then the elements
  abbrev many : Codec (List A)
  many = record {
    put = λ list. length list ∷ put_all list;
    get = λ xs. let p = first xs in get_all p.0 p.1;
    get-put = λ list rest. get_all-put_all list rest;
  }

abbrev text : Codec Text
text = many number

-- The sign, and then the number of the constructor
abbrev signed : ℕ × ℕ → ℤ
signed (sign, n) = if sign == 0 then pos n else negsuc n

abbrev parts : ℤ → ℕ × ℕ
parts (pos n) = (0, n)
parts (negsuc n) = (1, n)

pub signed-parts : (z : ℤ) → signed (parts z) ≡ z
signed-parts (pos n) = refl
signed-parts (negsuc n) = refl

abbrev integer : Codec ℤ
integer = along (both number number) signed parts signed-parts

abbrev TaskFields : Type 0
TaskFields =
    (Text × (Text × Text))
    × ((List Text × List Text) × ((List (Text × Text) × List Text) × (ℕ × ℤ)))

abbrev task_of : TaskFields → NodeTask ℕ
task_of ((n, (c, i)), ((cmd, env), ((ports, volumes), (cpu, memory)))) = record {
  node = n;
  container_name = c;
  image = i;
  command = cmd;
  environment_variables = env;
  exposed_ports = ports;
  volumes = volumes;
  max_cpu = cpu;
  max_memory = memory;
}

abbrev fields_of : NodeTask ℕ → TaskFields
fields_of t = (
  (t.node, (t.container_name, t.image)),
  ((t.command, t.environment_variables), ((t.exposed_ports, t.volumes), (t.max_cpu, t.max_memory))),
)

abbrev task : Codec (NodeTask ℕ)
task =
    along
      (both (both text (both text text)) (
        both (both (many text) (many text))
          (both (both (many (both text text)) (many text)) (both number integer))))
      task_of fields_of (λ t. refl)

abbrev config_of : Text × (Text × List (NodeTask ℕ)) → Config ℕ
config_of (l, (t, ts)) = record { log_level = l; access_token = t; tasks = ts }

abbrev config : Codec (Config ℕ)
config =
    along (both text (both text (many task))) config_of
      (λ c. (c.log_level, (c.access_token, c.tasks))) (λ c. refl)

abbrev pub put_config : Config ℕ → List ℕ
put_config = config.put

abbrev pub get_config : List ℕ → Config ℕ
get_config xs = (config.get xs).0

pub get_config-put_config : (c : Config ℕ) → get_config (put_config c) ≡ c
get_config-put_config c =
    ap get_config (sym (append-nil (put_config c))) ∙ ap (λ p. p.0) (config.get-put c [])
