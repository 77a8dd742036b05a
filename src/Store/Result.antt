-- ===== src/Store/Result.antt =====
-- Exceptions that src/eda_lab/store.py raises or lets through. Each of its methods rolls back or
-- has written nothing when it raises, so an error carries no database.
use semiconductor_domain_lab.Prelude.{Bool, true, false}

pub data StoreError : Type 0 where
  in_flight_budget_exhausted : StoreError
  -- sqlite3.IntegrityError: a primary or foreign key does not allow the row
  integrity_error : StoreError
  -- KeyError: both revisions must exist
  revision_missing : StoreError

pub data Result {ℓ} (A : Type ℓ) : Type ℓ where
  ok : A → Result A
  err : StoreError → Result A

infixl 5 ◌>>◌
-- A check that raises ends the method; a check that passes lets it go on.
abbrev pub ◌>>◌ {ℓ} : {A : Type ℓ} → Result (Unit {0}) → Result A → Result A
ok passed >> rest = rest
err raised >> rest = err raised

abbrev pub guard : Bool → StoreError → Result (Unit {0})
guard holds raised = elim holds [ true ↦ ok tt | false ↦ err raised ]
