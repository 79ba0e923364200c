-- ===== src/Agent/Config/Loading.antt =====
-- A configuration that was loaded is loaded again.
use sco.Common.{
  ℕ, ◌≡◌, refl, ap, subst, if◌then◌else◌, ◌∙◌, false, List, arith, Bool-cases, inl, inr,
}
use sco.Common.Files.{Files, FilesLaws}
use sco.Common.Result.{Result, ok, err}
use sco.Common.Text.{Text}
use sco.Agent.Config.{stored, store_default, parsed, path_of, load_from}

stored_ok :
    {W C : Type 0} (default c : C) (r : Result Text (Unit {0}) × W)
    → (stored default r).0 ≡ ok c
    → (r.0 ≡ ok tt) × (default ≡ c) × ((stored default r).1 ≡ r.1)
stored_ok default c (ok u, w) h = (refl, ground arith, refl)
stored_ok default c (err e, w) h = absurd cc

module _ {W C : Type 0} (files : Files W C) (laws : FilesLaws files) where
  store_default-kept :
      (default c : C) (path : Text) (m : Result Text (List ℕ)) (w : W)
      → files.marshal_indent default ≡ m
      → (store_default files default path m w).0 ≡ ok c
      → let w' = (store_default files default path m w).1 in
        (files.is_not_exist path w' ≡ false) × (parsed files (files.read_file path w') ≡ ok c)
  store_default-kept default c path (err e) w hm h = absurd cc
  store_default-kept default c path (ok xs) w hm h =
      let r = files.write_file path xs w in
      let (wrote, kept, place) = stored_ok default c r h in
      (
        ap (files.is_not_exist path) place ∙ laws.written_exists path xs w wrote,
        ap (λ v. parsed files (files.read_file path v)) place
            ∙ (ap (parsed files) (laws.written_read path xs w wrote)
                ∙ (laws.unmarshal-marshal_indent default xs hm ∙ ap ok kept)),
      )

  -- On a file system that keeps what is written: once LoadConfig has returned a configuration,
  -- loading the same path again returns it again, whatever the default would be then, and writes
  -- nothing. So a default that was made up at the first start, and its token, lasts.
  pub load_from-again :
      (default other c : C) (path : Text) (w : W)
      → (load_from files default path w).0 ≡ ok c
      → load_from files other path (load_from files default path w).1
        ≡ (ok c, (load_from files default path w).1)
  unfolding load_from
  load_from-again default other c path w h =
      let p = path_of files path in
      let d = store_default files default p (files.marshal_indent default) w in
      elim (Bool-cases (files.is_not_exist p w)) [
        | inl e ↦
            let (there, back) =
              store_default-kept default c p (files.marshal_indent default) w refl (
                subst (λ b. (if b then d else (parsed files (files.read_file p w), w)).0 ≡ ok c) e
                  h) in
            rw (e, load_from) (rw (there, load_from) (ap (λ r. (r, d.1)) back))
        | inr e ↦
            rw (e, load_from)
              (rw (e, load_from)
                (ap (λ r. (r, w))
                  (subst (λ b. (if b then d else (parsed files (files.read_file p w), w)).0 ≡ ok c)
                    e h)))
      ]
