-- ===== src/Agent/Docker/Names.antt =====
-- ListTasks does not panic on what Docker lists, and reports every container of the list.
use mathlib.Core.List.{Mem, mem-cons, not-mem-nil}
use mathlib.Core.Logic.Or
use sco.Common.{
  ℕ, ◌≡◌, ◌≢◌, refl, sym, ap, subst, ◌∙◌, List, [], ◌∷◌, none, some, All, fun_ext, take, length,
  arith,
}
use sco.Common.Dict.{
  text_key, same, lookup, insert, lookup-insert, lookup-insert_self, lookup-insert_ne,
}
use sco.Common.Result.{Result, ok, err}
use sco.Common.Run.{done, slice}
use sco.Common.Text.{Text}
use sco.Agent.Runtime.{Status}
use sco.Agent.DockerClient.{Failure, Summary}
use sco.Agent.Docker.{status_of_state}
use sco.Agent.Docker.Listing.{list_into, listed}
use sco.Agent.Docker.ClientLaws.{IsNamed}

abbrev no_tasks : List (Text × Status)
no_tasks = []

take-length : (xs : Text) → take (length xs) xs ≡ xs
take-length [] = refl
take-length (x ∷ xs) = ap (λ r. x ∷ r) (take-length xs)

slice_rest : (c : ℕ) (n : Text) → slice (c ∷ n) 1 (length (c ∷ n)) ≡ done n
slice_rest c n = ground (arith, take-length n)

lookup-insert_kept :
    (k n : Text) (s : Status) (m : List (Text × Status))
    → lookup n m ≢ none
    → lookup n (insert k s m) ≢ none
lookup-insert_kept k n s m h e = h (ground (arith, lookup-insert k n s m))

-- The loop over summaries with names: it returns, and reports each of them.
pub list_into-returns :
    (items : List Summary) (result : List (Text × Status))
    → All (λ s. (n : Text) × IsNamed n s) items
    → (r : List (Text × Status)) × (list_into items result ≡ done r)
      × ((n : Text) → lookup n result ≢ none → lookup n r ≢ none)
      × ((n : Text) (s : Summary) → Mem s items → IsNamed n s → lookup n r ≢ none)
unfolding list_into
list_into-returns [] result h = (result, refl, (λ n k. k), λ n s m _ _. not-mem-nil m)
list_into-returns (summary ∷ items) result h =
    let (name, (more, named)) = h.0 in
    let status = status_of_state summary.state in
    let (r, ran, kept, all) = list_into-returns items (insert name status result) h.1 in
    (
      r,
      rw (named, list_into) (rw (slice_rest 47 name, list_into) ran),
      (λ n k. kept n (lookup-insert_kept name n status result k)),
      λ n s m at.
          Or.elim (λ a b. fun_ext (λ e. absurd (a e))) (mem-cons.0 m)
            (λ same_item.
              let own : n ≡ name = cc (at.1, named) in
              kept n (λ e. cc (lookup-insert_self name n status result (sym own))))
            (λ later. all n s later at),
    )

-- The statuses of the map that the loop returns are those that the summaries tell.
list_into-true :
    (st : Text → Status) (items : List Summary) (result r : List (Text × Status))
    → All (λ s. (n : Text) × IsNamed n s × (status_of_state s.state ≡ st n)) items
    → ((n : Text) (q : Status) → lookup n result ≡ some q → q ≡ st n)
    → list_into items result ≡ done r
    → (n : Text) (q : Status) → lookup n r ≡ some q
    → q ≡ st n
unfolding list_into
list_into-true st [] result r h k e n q f =
    let same_map : result ≡ r = cc in k n q (ap (lookup n) same_map ∙ f)
list_into-true st (summary ∷ items) result r h k e n q f =
    let (name, (more, named), true_of) = h.0 in
    let status = status_of_state summary.state in
    let grown = insert name status result in
    let opened : list_into (summary ∷ items) result ≡ list_into items grown =
      rw (named, list_into) (rw (slice_rest 47 name, list_into) refl) in
    list_into-true st items grown r h.1
      (λ m p here. elim (same name m) [
        | yes own ↦
            let at : some status ≡ some p =
              sym (lookup-insert_self name m status result own) ∙ here in
            let told : status ≡ p = cc in sym told ∙ (true_of ∙ ap st own)
        | no other ↦ k m p (sym (lookup-insert_ne name m status result other) ∙ here)
      ])
      (sym opened ∙ e) n q f

empty_map : (m : Text) (p : Status) → lookup m (no_tasks) ≢ some p
unfolding lookup
empty_map m p = λ e. cc

-- ListTasks returns on every answer of the client whose summaries have names.
pub listed-returns :
    {W : Type 0} (r : Result Failure (List Summary) × W)
    → ((items : List Summary) → r.0 ≡ ok items → All (λ s. (n : Text) × IsNamed n s) items)
    → (a : Result Text (List (Text × Status))) × ((listed r).0 ≡ done a)
unfolding listed
listed-returns (err f, w) h = (err f.text, refl)
listed-returns (ok items, w) h =
    let (a, ran, _, _) = list_into-returns items [] (h items refl) in (ok a, rw (ran, listed) refl)

-- Where ListTasks returns a map, each container of the list is in it.
pub listed-reports :
    {W : Type 0} (r : Result Failure (List Summary) × W) (l : List (Text × Status)) (n : Text)
    → (listed r).0 ≡ done (ok l)
    → ((items : List Summary)
        → r.0 ≡ ok items
        → All (λ s. (n : Text) × IsNamed n s) items × ((s : Summary) × Mem s items × IsNamed n s))
    → lookup n l ≢ none
unfolding listed
listed-reports (err f, w) l n e h = absurd cc
listed-reports (ok items, w) l n e h =
    let (named, (s, m, at)) = h items refl in
    let (a, ran, _, all) = list_into-returns items [] named in
    let ends : (listed (ok items, w)).0 ≡ done (ok a) = rw (ran, listed) refl in
    let same_map : a ≡ l = cc in subst (λ q. lookup n q ≢ none) same_map (all n s m at)

all-IsNamed :
    (st : Text → Status) (items : List Summary)
    → All (λ s. (n : Text) × IsNamed n s × (status_of_state s.state ≡ st n)) items
    → All (λ s. (n : Text) × IsNamed n s) items
all-IsNamed st [] h = tt
all-IsNamed st (s ∷ items) h = ((h.0.0, h.0.1), all-IsNamed st items h.1)

-- Where ListTasks returns a map, its statuses are those that the summaries tell.
pub listed-true :
    {W : Type 0} (st : Text → Status) (r : Result Failure (List Summary) × W)
    (l : List (Text × Status))
    → (listed r).0 ≡ done (ok l)
    → ((items : List Summary)
        → r.0 ≡ ok items
        → All (λ s. (n : Text) × IsNamed n s × (status_of_state s.state ≡ st n)) items)
    → (n : Text) (q : Status) → lookup n l ≡ some q
    → q ≡ st n
unfolding listed
listed-true st (err f, w) l e h n q at = absurd cc
listed-true st (ok items, w) l e h n q at =
    let told = h items refl in
    let (a, ran, _, _) = list_into-returns items [] (all-IsNamed st items told) in
    let ends : (listed (ok items, w)).0 ≡ done (ok a) = rw (ran, listed) refl in
    let same_map : a ≡ l = cc in
    list_into-true st items [] a told (λ m p none_yet. absurd (empty_map m p none_yet)) ran n q
      (ap (lookup n) same_map ∙ at)

pub listed-world : {W : Type 0} (r : Result Failure (List Summary) × W) → (listed r).1 ≡ r.1
unfolding listed
listed-world (err f, w) = refl
listed-world (ok items, w) = refl
