-- ===== src/Store/Fence.antt =====
-- src/eda_lab/store.py: who may still write an Attempt after a recovery claim, after its end, and
-- after a new lease.
use semiconductor_domain_lab.Prelude.{
  Option, ℕ, ◌+◌, ◌≤◌, String, Bool, true, false, some, ◌≡◌, refl, sym, ap, ◌∙◌, arith, lt_column,
  str_eq_refl,
}
use semiconductor_domain_lab.Prelude.Table.{passes}
use semiconductor_domain_lab.Store.Schema.{ExecutionOwner, Attempt, Database, is_attempt}
use semiconductor_domain_lab.Store.Runs.{is_running_run}
use semiconductor_domain_lab.Store.Attempts.{
  Outcome, can_lease, set_lease, is_running, update_attempt, holds_recovery, acquire_attempt_lease,
  heartbeat_attempt, transition_attempt, claim_recovery,
}
use semiconductor_domain_lab.Store.Finalize.{
  Completion, may_finalize, finalize_recovery, finalize_attempt_and_run,
}
use semiconductor_domain_lab.Store.Keys.{
  HasKeys, attempt_at, run_at, hit-update_attempt, at-update_attempt, update_attempt-HasKeys,
  update_attempt_miss,
}
use semiconductor_domain_lab.Store.Abandon.{finalize_recovery-decides, finalize_recovery_atomic}
use semiconductor_domain_lab.Store.Atomic.{
  passes-some, finalize_attempt_and_run-decides, finalize_attempt_and_run_atomic,
}

-- The operation was refused and wrote nothing.
abbrev pub Refused : Database → Database × Bool → Type 0
Refused db r = (r.1 ≡ false) × (r.0 ≡ db)

module _ (db : Database) (k : HasKeys db) (j : String) (n : ℕ) where
  pub update_attempt-Refused :
      (g : Attempt → Bool) (f : Attempt → Attempt)
      → passes g (attempt_at db j n) ≡ false
      → Refused db (update_attempt db j n g f)
  update_attempt-Refused g f h =
      let e = update_attempt_miss db j n g f k h in (ap (λ r. r.1) e, ap (λ r. r.0) e)

  pub finalize_attempt_and_run-Refused :
      (now : ℕ) (token : String) (c : Completion)
      → passes (may_finalize db now token c.execution_owner) (attempt_at db j n) ≡ false
      → Refused db (finalize_attempt_and_run db now j n token c)
  finalize_attempt_and_run-Refused now token c h = ground (
    arith,
    finalize_attempt_and_run_atomic db k now j n token c,
    finalize_attempt_and_run-decides db k now j n token c,
  )

  pub finalize_recovery-Refused :
      (now : ℕ) (token error_type error : String)
      → passes (holds_recovery token) (attempt_at db j n) ≡ false
      → Refused db (finalize_recovery db now j n token error_type error)
  finalize_recovery-Refused now token error_type error h = ground (
    arith,
    finalize_recovery_atomic db k now j n token error_type error,
    finalize_recovery-decides db k now j n token error_type error,
  )

-- What a successful UPDATE of one Attempt leaves.
pub hit_leaves :
    (db : Database) (k : HasKeys db) (j : String) (n : ℕ) (g : Attempt → Bool)
    (f : Attempt → Attempt)
    → ((i : String) (m : ℕ) (a : Attempt) → is_attempt i m (f a) ≡ is_attempt i m a)
    → (update_attempt db j n g f).1 ≡ true
    → (a : Attempt) × (attempt_at db j n ≡ some a)
      × (attempt_at (update_attempt db j n g f).0 j n ≡ some (f a))
      × (g a ≡ true)
hit_leaves db k j n g f keeps h =
    let (a, here, ok) =
      passes-some g (attempt_at db j n) (sym (hit-update_attempt db j n g f k) ∙ h) in
    (a, here, at-update_attempt db j n g f keeps ∙ simp (here, ok), ok)

module _ (db : Database) (k : HasKeys db) (j : String) (n : ℕ) (t : ℕ) (owner token : String)
    (ttl : ℕ) (claimed : (claim_recovery db t j n owner token ttl).1 ≡ true) where
  abbrev db₁ : Database
  db₁ = (claim_recovery db t j n owner token ttl).0

  pub claim_recovery-HasKeys : HasKeys db₁
  unfolding claim_recovery
  claim_recovery-HasKeys = update_attempt-HasKeys db j n _ _ (λ i m a. refl) k

  claimed_row :
      (a : Attempt) × (attempt_at db j n ≡ some a)
      × (attempt_at db₁ j n
          ≡ some (record a {
            recovery_owner = some owner;
            recovery_token = some token;
            recovery_expires_at = some (t + ttl);
            updated_at = t;
          }))
      × (lt_column a.lease_expires_at t ≡ true)
      × (is_running a ≡ true)
  unfolding claim_recovery
  claimed_row =
      let (a, old, here, ok) = hit_leaves db k j n _ _ (λ i m a. refl) claimed in
      (a, old, here, ground arith, ground arith)

  claim_leaves :
      (a : Attempt) × (attempt_at db₁ j n
        ≡ some (record a {
          recovery_owner = some owner;
          recovery_token = some token;
          recovery_expires_at = some (t + ttl);
          updated_at = t;
        }))
      × (lt_column a.lease_expires_at t ≡ true)
      × (is_running a ≡ true)
  claim_leaves = let (a, old, here, late, live) = claimed_row in (a, here, late, live)

  -- What the claimed Attempt was.
  pub claim_recovery_before :
      (a : Attempt) × (attempt_at db j n ≡ some a)
      × (lt_column a.lease_expires_at t ≡ true)
      × (is_running a ≡ true)
  claim_recovery_before = let (a, old, here, late, live) = claimed_row in (a, old, late, live)

  -- A successful recovery claim excludes every other claim until it runs out.
  pub claim_recovery_exclusive :
      (now : ℕ) (other other_token : String) (other_ttl : ℕ)
      → now ≤ t + ttl
      → Refused db₁ (claim_recovery db₁ now j n other other_token other_ttl)
  unfolding claim_recovery
  claim_recovery_exclusive now other other_token other_ttl h =
      let (a, here, late, live) = claim_leaves in
      update_attempt-Refused db₁ claim_recovery-HasKeys j n _ _ (rw here (ground arith))

  -- The fence of a completion is closed.
  pub may_finalize_after_claim :
      (now : ℕ) (held : String) (o : Option ExecutionOwner)
      → t ≤ now
      → passes (may_finalize db₁ now held o) (attempt_at db₁ j n) ≡ false
  may_finalize_after_claim now held o later =
      let (a, here, late, live) = claim_leaves in rw here (ground arith)

  -- In the database that a successful recovery claim leaves, at any time from the claim on,
  -- `heartbeat_attempt`, `transition_attempt` and `finalize_attempt_and_run` are refused under every
  -- token, and write nothing; what other methods have written after the claim is not covered.
  pub claim_recovery_fences_owner :
      (now : ℕ) (held : String)
      → t ≤ now
      → (ttl' : ℕ) (updated recovered : ℕ) (o : Outcome) (c : Completion)
      → Refused db₁ (heartbeat_attempt db₁ now j n held ttl')
        × Refused db₁ (transition_attempt db₁ updated now recovered j n held o)
        × Refused db₁ (finalize_attempt_and_run db₁ now j n held c)
  unfolding heartbeat_attempt transition_attempt
  claim_recovery_fences_owner now held later ttl' updated recovered o c =
      let (a, here, late, live) = claim_leaves in
      (
        update_attempt-Refused db₁ claim_recovery-HasKeys j n _ _ (rw here (ground arith)),
        update_attempt-Refused db₁ claim_recovery-HasKeys j n _ _ (rw here (ground arith)),
        finalize_attempt_and_run-Refused db₁ claim_recovery-HasKeys j n now held c
            (rw here (ground arith)),
      )

  -- In the database that a lease acquired right after a successful recovery claim leaves, neither
  -- `transition_attempt` nor `finalize_attempt_and_run` under that lease's token ends the Attempt
  -- before the claim has run out: both are refused and write nothing.
  pub claim_recovery_blocks_new_lease :
      (t' : ℕ) (worker lease_token : String) (lease_ttl : ℕ) (now updated leased : ℕ) (o : Outcome)
      (c : Completion)
      → (acquire_attempt_lease db₁ t' j n worker lease_token lease_ttl).1 ≡ true
      → now ≤ t + ttl
      → let db₂ = (acquire_attempt_lease db₁ t' j n worker lease_token lease_ttl).0 in
        Refused db₂ (transition_attempt db₂ updated leased now j n lease_token o)
        × Refused db₂ (finalize_attempt_and_run db₂ now j n lease_token c)
  unfolding acquire_attempt_lease transition_attempt
  claim_recovery_blocks_new_lease t' worker lease_token lease_ttl now updated leased o c acquired
        h =
      let (a, here, late, live) = claim_leaves in
      let k₂ =
        update_attempt-HasKeys db₁ j n (can_lease t') (set_lease t' worker lease_token lease_ttl)
          (λ i m a. refl) claim_recovery-HasKeys in
      let (b, old, new, ok) =
        hit_leaves db₁ claim_recovery-HasKeys j n (can_lease t')
          (set_lease t' worker lease_token lease_ttl) (λ i m a. refl) acquired in
      (
        update_attempt-Refused _ k₂ j n _ _ (rw new (ground (arith, sym old ∙ here))),
        finalize_attempt_and_run-Refused _ k₂ j n now lease_token c
            (rw new (ground (arith, sym old ∙ here))),
      )

  -- The claimant can end the Attempt as long as nobody else has taken the claim over: right after
  -- the claim, `finalize_recovery` succeeds exactly when the Run is RUNNING.
  pub claim_recovery_then_finalize :
      (now : ℕ) (error_type error : String)
      → (finalize_recovery db₁ now j n token error_type error).1
        ≡ passes is_running_run (run_at db j)
  claim_recovery_then_finalize now error_type error =
      let (a, here, late, live) = claim_leaves in
      finalize_recovery-decides db₁ claim_recovery-HasKeys now j n token error_type error
      ∙ rw (here, live, str_eq_refl token, run_at-claim)
    where
      run_at-claim : run_at db₁ j ≡ run_at db j
      run_at-claim = unfold claim_recovery in refl
