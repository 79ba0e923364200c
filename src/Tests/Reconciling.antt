-- ===== src/Tests/Reconciling.antt =====
-- Whole reconciliations over a table of tasks.
use sco.Common.{ℕ, ◌==◌, ◌≡◌, refl, arith, ap, length, List, [], ◌∷◌, ◌++◌, none, some, true, false}
use sco.Common.Result.{ok}
use sco.Common.Text.{Text, codes}
use sco.Agent.Runtime.{TaskConfig, running, Status}
use sco.Agent.Reconcile.{reconcile, stop_and_remove, stop_unlisted}
use sco.Agent.Reconcile.Whole.{reconcile-removes}
use sco.Tests.Orchestration.{table, table-Laws, view, wanted, before}

-- What the table reports for `before`
abbrev listed : List (Text × Status)
listed = (codes "web", running) ∷ (codes "legacy", running) ∷ []

legacy_alone :
    (front back : List (Text × Status)) (s : Status)
    → listed ≡ front ++ (codes "legacy", s) ∷ back
    → front ≡ (codes "web", running) ∷ []
legacy_alone [] back s e = cc
legacy_alone (p ∷ []) back s e = cc
legacy_alone (p ∷ q ∷ []) back s e = cc
legacy_alone (p ∷ q ∷ r ∷ front) back s e = cc

reconcile-removes_example :
    view (reconcile ◌==◌ table (ok (wanted ∷ [])) before).1 (codes "legacy") ≡ none
unfolding sco.Agent.Reconcile.found sco.Common.Text.Text-discrete sco.Common.Dict.lookup
    stop_unlisted stop_and_remove sco.Common.Dict.insert sco.Common.Dict.delete
reconcile-removes_example =
    reconcile-removes ◌==◌ table view table-Laws (wanted ∷ []) (codes "legacy")
      (record wanted { name = codes "legacy" }) listed before refl refl refl
      (((λ e. omega (arith, ap length e)), tt), (tt, tt))
      (λ front back s e. rw (legacy_alone front back s e) refl)
