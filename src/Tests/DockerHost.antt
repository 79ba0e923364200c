-- ===== src/Tests/DockerHost.antt =====
-- A host of containers with the documented behaviour of Docker, and the agent over it.
use mathlib.Core.List.{Mem, mem-cons}
use mathlib.Core.List.Perm
use mathlib.Core.Logic.Or
use sco.Common.{
  ℕ, ◌*◌, ◌/◌, ◌^◌, ◌<◌, ◌≡◌, ◌≢◌, inl, inr, refl, sym, ap, subst, ◌∙◌, Bool, true, false, List, [],
  ◌∷◌, ◌++◌, Option, none, some, All, arith, ite, if◌then◌else◌, ◌==◌, ℕ_discrete, Option-cases,
}
use sco.Common.Result.{Result, ok, err}
use sco.Common.Text.{Text, codes}
use sco.Common.Dict.{
  nat_key, text_key, same, lookup, insert, delete, lookup-insert_self, lookup-insert_ne,
}
use sco.Agent.DockerClient.{Failure, Summary, Settings, CreateOptions, Inspection, Call, Client}
use sco.Agent.Docker.{sco_server_label, state_running, state_exited}
use sco.Agent.Docker.RoundTrip.{Reports}
use sco.Agent.Docker.ClientLaws.{Container, IsNamed, Lists}

-- State and settings; the name serves as the id, and the label is always there.
abbrev pub Body : Type 0
Body = Text × Settings ℕ

abbrev pub Host : Type 0
Host = List (Text × Body)

abbrev pub container_of : Text → Option Body → Option (Container ℕ)
container_of n none = none
container_of n (some b) = some (record {
  id = n;
  image_id = b.1.image;
  state = b.0;
  labels = (sco_server_label, []) ∷ [];
  settings = b.1;
})

abbrev pub containers : Host → Text → Option (Container ℕ)
containers w n = container_of n (lookup n w)

abbrev pub not_found : Text → Failure
not_found n = record { text = codes "container " ++ n ++ codes " not found"; is_not_found = true }

abbrev pub summary_of : Text → Body → Summary
summary_of n b = record {
  id = n;
  names = (47 ∷ n) ∷ [];
  state = b.0;
  labels = (sco_server_label, []) ∷ [];
}

abbrev pub find : Text → Option Body → Result Failure Summary
find n none = err (not_found n)
find n (some b) = ok (summary_of n b)

abbrev pub inspect : Text → Option Body → Result Failure (Inspection ℕ)
inspect n none = err (not_found n)
inspect n (some b) = ok (record { image_id = b.1.image; settings = b.1 })

-- The images of the host, which are their own ids
abbrev pub images : Host → Text → Option Text
images w i = some i

abbrev pub listed_with : Text → Option Body → List Summary → List Summary
listed_with n none items = items
listed_with n (some b) items = summary_of n b ∷ items

-- The names of a part of the host, each with its container
abbrev pub summaries_in : Host → Host → List Summary
summaries_in all [] = []
summaries_in all ((n, b) ∷ w) = listed_with n (lookup n all) (summaries_in all w)

abbrev pub summaries : Host → List Summary
summaries w = summaries_in w w

abbrev pub put : Text → Text → Option Body → Call Host (Unit {0})
put n state none w = (err (not_found n), w)
put n state (some b) w = (ok tt, insert n (state, b.1) w)

abbrev pub create : CreateOptions ℕ → Option Body → Call Host Text
create o none w = (ok o.name, insert o.name (codes "created", o.settings) w)
create o (some b) w = (err (record { text = codes "name in use"; is_not_found = false }), w)

abbrev pub docker : Client Host ℕ
docker = record {
  image_pull = λ i w. (ok 0, w);
  wait = λ k w. (ok tt, w);
  find_container_by_name = λ n w. (find n (lookup n w), w);
  container_create = λ o w. create o (lookup o.name w) w;
  container_start = λ n w. put n state_running (lookup n w) w;
  container_stop = λ n w. put n state_exited (lookup n w) w;
  container_remove = λ n w. (ok tt, delete n w);
  container_list = λ l w. (ok (summaries w), w);
  container_inspect = λ n w. (inspect n (lookup n w), w);
  image_inspect = λ i w. (ok i, w);
}

pub container_of-some :
    (n : Text) (o : Option Body) (c : Container ℕ)
    → container_of n o ≡ some c
    → (b : Body) × (o ≡ some b)
      × (c ≡ record {
        id = n;
        image_id = b.1.image;
        state = b.0;
        labels = (sco_server_label, []) ∷ [];
        settings = b.1;
      })
container_of-some n none c h = absurd cc
container_of-some n (some b) c h = (b, refl, cc)

pub put-frame :
    (n m state : Text) (o : Option Body) (w : Host)
    → n ≢ m
    → lookup m (put n state o w).1 ≡ lookup m w
put-frame n m state none w h = refl
put-frame n m state (some b) w h = lookup-insert_ne n m (state, b.1) w h

pub put_self :
    (n state : Text) (o : Option Body) (w : Host) (b : Body)
    → o ≡ some b
    → lookup n (put n state o w).1 ≡ some (state, b.1)
put_self n state none w b h = absurd cc
put_self n state (some a) w b h =
    let same_body : a ≡ b = cc in
    lookup-insert_self n n (state, a.1) w refl ∙ ap (λ x. some (state, x.1)) same_body

pub find_sound :
    (n : Text) (o : Option Body) (s : Summary)
    → find n o ≡ ok s
    → (c : Container ℕ) × (container_of n o ≡ some c)
      × (s.id ≡ c.id)
      × (s.state ≡ c.state)
      × (s.labels ≡ c.labels)
find_sound n none s h = absurd cc
find_sound n (some b) s h = (_, refl, cc, cc, cc)

pub find_gone :
    (n : Text) (o : Option Body) (f : Failure) → find n o ≡ err f → container_of n o ≡ none
find_gone n none f h = refl
find_gone n (some b) f h = absurd cc

pub inspect_sound :
    (n : Text) (o : Option Body) (r : Inspection ℕ)
    → inspect n o ≡ ok r
    → (c : Container ℕ) × (container_of n o ≡ some c)
      × (r.image_id ≡ c.image_id)
      × (r.settings ≡ c.settings)
inspect_sound n none r h = absurd cc
inspect_sound n (some b) r h = (_, refl, cc, cc)

pub inspect_gone :
    (n : Text) (o : Option Body) (f : Failure) → inspect n o ≡ err f → container_of n o ≡ none
inspect_gone n none f h = refl
inspect_gone n (some b) f h = absurd cc

listed_in :
    (all w : Host) (n : Text) (a b : Body)
    → lookup n all ≡ some a
    → lookup n w ≡ some b
    → (s : Summary) × Mem s (summaries_in all w) × IsNamed n s
unfolding lookup
listed_in all [] n a b here h = absurd cc
listed_in all ((m, d) ∷ w) n a b here h = elim (same m n) [
  | yes p ↦
      let at : lookup m all ≡ some a = ap (λ k. lookup k all) p ∙ here in
      rw at (summary_of m a, mem-cons.1 (Or.inl refl), ([], ap (λ k. (47 ∷ k) ∷ []) p))
  | no p ↦
      let (s, inside, named) = listed_in all w n a b here (ground arith) in
      elim (Option-cases (lookup m all)) [
        | inl e ↦ rw e (s, inside, named)
        | inr (x, e) ↦ rw e (s, mem-cons.1 (Or.inr inside), named)
      ]
]

pub listed_all :
    (w : Host) (n : Text) (b : Body)
    → lookup n w ≡ some b
    → (s : Summary) × Mem s (summaries w) × IsNamed n s
listed_all w n b h = listed_in w w n b b h h

pub all-Lists : (all w : Host) → All (Lists containers all) (summaries_in all w)
all-Lists all [] = tt
all-Lists all ((n, b) ∷ w) = elim (Option-cases (lookup n all)) [
  | inl e ↦ rw e (all-Lists all w)
  | inr (x, e) ↦ rw e ((n, ([], refl), (_, ap (container_of n) e, refl)), all-Lists all w)
]

pub env_kept : (es : List Text) → All (λ e. Mem e es) es
env_kept es = All-Mem es es (λ e m. m)
  where
    All-Mem : (xs ys : List Text) → ((e : Text) → Mem e xs → Mem e ys) → All (λ e. Mem e ys) xs
    All-Mem [] ys h = tt
    All-Mem (x ∷ xs) ys h =
        (h x (mem-cons.1 (Or.inl refl)), All-Mem xs ys (λ e m. h e (mem-cons.1 (Or.inr m))))

abbrev pub labels_of : List (Text × Text)
labels_of = (sco_server_label, []) ∷ []

pub own_label : lookup sco_server_label labels_of ≢ none
unfolding lookup sco.Common.Text.Text-discrete
own_label = λ e. cc

pub started_none :
    (id m : Text) (w : Host)
    → id ≡ m
    → lookup m w ≡ none
    → containers (put id state_running (lookup id w) w).1 m ≡ containers w m
started_none id m w p e =
    let gone : lookup id w ≡ none = ap (λ k. lookup k w) p ∙ e in
    ap (λ o. containers (put id state_running o w).1 m) gone

pub created_as :
    (o : CreateOptions ℕ) (b : Option Body) (w : Host) (id : Text)
    → (create o b w).0 ≡ ok id
    → (container_of o.name b ≡ none)
      × ((c : Container ℕ) × (container_of o.name (lookup o.name (create o b w).1) ≡ some c)
          × (c.id ≡ id)
          × Reports o.settings c.settings)
created_as o (some b) w id h = absurd cc
created_as o none w id h = (
  refl,
  (
    _,
    ap (container_of o.name)
        (lookup-insert_self o.name o.name (codes "created", o.settings) w refl),
    cc,
    record {
      image = refl;
      cmd = inr refl;
      env = env_kept o.settings.env;
      port_bindings = refl;
      binds = Perm.refl o.settings.binds;
      nano_cpus = refl;
      memory = refl;
    },
  ),
)

pub create-frame :
    (o : CreateOptions ℕ) (b : Option Body) (m : Text) (w : Host)
    → o.name ≢ m
    → lookup m (create o b w).1 ≡ lookup m w
create-frame o none m w h = lookup-insert_ne o.name m (codes "created", o.settings) w h
create-frame o (some b) m w h = refl
