-- ===== src/Store/History/Phases.antt =====
-- src/eda_lab/store.py: the life of an Attempt as a machine of three phases, which every history of
-- calls refines.
use mathlib.Core.Path.{subst}
use semiconductor_domain_lab.Prelude.{
  ℕ, String, Bool, true, false, ◌&&◌, Option, none, some, List, [], ◌∷◌, ◌≡◌, refl, sym, ap, ◌∙◌,
  inl, inr, arith, Bool-cases, str_eq, eq_iff, ◌==◌, if◌then◌else◌,
}
use semiconductor_domain_lab.Prelude.Table.{set_if}
use semiconductor_domain_lab.Models.{RunStatus}
use semiconductor_domain_lab.Store.Runs.{assign}
use semiconductor_domain_lab.Store.Schema.{Run, Attempt, Database, is_attempt}
use semiconductor_domain_lab.Store.Attempts.{
  is_running, update_attempt, acquire_attempt_lease, heartbeat_attempt, record_attempt_process,
  transition_attempt, claim_recovery, release_recovery_claim, holds_recovery, set_status,
}
use semiconductor_domain_lab.Store.Hosts.{record_attempt_execution}
use semiconductor_domain_lab.Store.Finalize.{
  finalize_recovery, finalize_attempt_and_run, may_finalize, final_fields, set_abandoned,
  update_running_run, retire_requests,
}
use semiconductor_domain_lab.Store.Keys.{attempt_at, at-update_attempt, at-update_attempt_other}
use semiconductor_domain_lab.Store.History.{Call, apply, replay}

pub data Phase : Type 0 where
  absent running ended : Phase

abbrev phase_of : Bool → Phase
phase_of true = Phase.running
phase_of false = Phase.ended

abbrev pub phase : Option Attempt → Phase
phase none = Phase.absent
phase (some a) = phase_of (is_running a)

-- The one change of phase.
pub data Reaches : Phase → Phase → Type 0 where
  stays : {p : Phase} → Reaches p p
  ends : Reaches Phase.running Phase.ended

Reaches-trans : {p q r : Phase} → Reaches p q → Reaches q r → Reaches p r
Reaches-trans stays k = k
Reaches-trans ends stays = ends

-- What a call may do to the row of an Attempt: its phase stays or ends, and an ended row is kept as
-- it is.
pub record Progressed (before after : Option Attempt) : Type 0 where
  pub reaches : Reaches (phase before) (phase after)
  pub frozen : phase before ≡ Phase.ended → after ≡ before

unchanged : (o : Option Attempt) → Progressed o o
unchanged o = record { reaches = stays; frozen = λ e. refl }

Progressed-trans : {a b c : Option Attempt} → Progressed a b → Progressed b c → Progressed a c
Progressed-trans p q = record {
  reaches = Reaches-trans p.reaches q.reaches;
  frozen = λ e. q.frozen (ap phase (p.frozen e) ∙ e) ∙ p.frozen e;
}

-- The change of a row of which it is known whether it is RUNNING.
row-Reaches : (r s : Bool) → (r ≡ false → s ≡ false) → Reaches (phase_of r) (phase_of s)
row-Reaches true true h = stays
row-Reaches true false h = ends
row-Reaches false true h = absurd (ground arith)
row-Reaches false false h = stays

ended-not_running : (r : Bool) → phase_of r ≡ Phase.ended → r ≡ false
ended-not_running true e = ground arith
ended-not_running false e = refl

-- What an UPDATE that asks for a RUNNING Attempt makes of its row.
set_if-Progressed :
    (g : Attempt → Bool) (f : Attempt → Attempt) (o : Option Attempt)
    → ((a : Attempt) → is_running a ≡ false → g a ≡ false)
    → Progressed o (set_if g f o)
set_if-Progressed g f none guard = unchanged none
set_if-Progressed g f (some a) guard = record {
  reaches =
      row-Reaches (is_running a) (is_running (if g a then f a else a)) (λ e. rw (guard a e) e);
  frozen = λ e. rw (guard a (ended-not_running (is_running a) e)) refl;
}

module _ (db : Database) (i : String) (m : ℕ) (g : Attempt → Bool) (f : Attempt → Attempt)
    (keeps : (j : String) (n : ℕ) (a : Attempt) → is_attempt j n (f a) ≡ is_attempt j n a)
    (guard : (a : Attempt) → is_running a ≡ false → g a ≡ false) (j : String) (n : ℕ) where
  same-Progressed :
      i ≡ j → m ≡ n → Progressed (attempt_at db j n) (attempt_at (update_attempt db i m g f).0 j n)
  same-Progressed e k =
      subst (λ o. Progressed (attempt_at db j n) o)
        (sym (at-update_attempt db j n g f keeps)
          ∙ ap (λ x. attempt_at (update_attempt db x n g f).0 j n) (sym e)
          ∙ ap (λ x. attempt_at (update_attempt db i x g f).0 j n) (sym k))
        (set_if-Progressed g f (attempt_at db j n) guard)

  update-Progressed : Progressed (attempt_at db j n) (attempt_at (update_attempt db i m g f).0 j n)
  update-Progressed = elim (Bool-cases (str_eq i j && m == n)) [
    | inl same ↦ same-Progressed ((eq_iff i j).0 (ground (arith, same))) (ground (arith, same))
    | inr other ↦
        subst (λ o. Progressed (attempt_at db j n) o)
          (sym (at-update_attempt_other db i m g f keeps j n other)) (unchanged (attempt_at db j n))
  ]

abbrev settled : Bool → Bool → Database → Database → Database × Bool
settled hit moved new old =
    if hit then (if moved then (new, true) else (old, false)) else (old, false)

-- The two transactions end with the row of their UPDATE, or with everything as it was.
settled-Progressed :
    (o : Option Attempt) (hit moved : Bool) (new old : Database) (j : String) (n : ℕ)
    → Progressed o (attempt_at new j n)
    → Progressed o (attempt_at old j n)
    → Progressed o (attempt_at (settled hit moved new old).0 j n)
settled-Progressed o true true new old j n p q = p
settled-Progressed o true false new old j n p q = q
settled-Progressed o false moved new old j n p q = q

-- Every call of a fenced method, on whatever Attempt, lets each Attempt progress.
apply-Progressed :
    (c : Call) (db : Database) (j : String) (n : ℕ)
    → Progressed (attempt_at db j n) (attempt_at (apply c db).0 j n)
unfolding apply acquire_attempt_lease heartbeat_attempt record_attempt_process
    record_attempt_execution transition_attempt claim_recovery release_recovery_claim
    finalize_attempt_and_run finalize_recovery update_running_run retire_requests
apply-Progressed (Call.acquire now i m owner token ttl) db j n =
    update-Progressed db i m _ _ (λ k l a. refl) (λ a e. ground (arith, e)) j n
apply-Progressed (Call.heartbeat now i m token ttl) db j n =
    update-Progressed db i m _ _ (λ k l a. refl) (λ a e. ground (arith, e)) j n
apply-Progressed (Call.process now i m token pid started identity group deadline) db j n =
    update-Progressed db i m _ _ (λ k l a. refl) (λ a e. ground (arith, e)) j n
apply-Progressed (Call.execution updated now i m token o execution_id) db j n =
    update-Progressed db i m _ _ (λ k l a. refl) (λ a e. ground (arith, e)) j n
apply-Progressed (Call.transition updated now recovered i m token o) db j n =
    update-Progressed db i m _ _ (λ k l a. refl) (λ a e. ground (arith, e)) j n
apply-Progressed (Call.claim now i m owner token ttl) db j n =
    update-Progressed db i m _ _ (λ k l a. refl) (λ a e. ground (arith, e)) j n
apply-Progressed (Call.release now i m token) db j n =
    update-Progressed db i m _ _ (λ k l a. refl) (λ a e. ground (arith, e)) j n
apply-Progressed (Call.complete now i m token c) db j n =
    let u =
      update_attempt db i m (may_finalize db now token c.execution_owner)
        (set_status c.outcome now) in
    let r = update_running_run u.0 i (assign (final_fields c) now) in
    settled-Progressed (attempt_at db j n) u.1 r.1 r.0 db j n
      (update-Progressed db i m (may_finalize db now token c.execution_owner)
        (set_status c.outcome now) (λ k l a. refl) (λ a e. ground (arith, e)) j n)
      (unchanged (attempt_at db j n))
apply-Progressed (Call.recover now i m token error_type error) db j n =
    let set = set_abandoned (some error_type) (some error) now in
    let u = update_attempt db i m (holds_recovery token) set in
    let r =
      update_running_run u.0 i (λ (r : Run). record r {
        status = RunStatus.failed;
        error = some error;
        updated_at = now;
      }) in
    settled-Progressed (attempt_at db j n) u.1 r.1 (retire_requests r.0 i m) db j n
      (update-Progressed db i m (holds_recovery token) set (λ k l a. refl)
        (λ a e. ground (arith, e)) j n)
      (unchanged (attempt_at db j n))

-- Any history of calls of the fenced methods, by whatever processes, with whatever clocks, tokens and
-- arguments, refines the machine of three phases: an Attempt that is not there stays away, a RUNNING
-- one stays or ends, and one that has ended keeps its row as it is for ever.
pub replay-Progressed :
    (cs : List Call) (db : Database) (j : String) (n : ℕ)
    → Progressed (attempt_at db j n) (attempt_at (replay cs db) j n)
unfolding replay
replay-Progressed [] db j n = unchanged (attempt_at db j n)
replay-Progressed (c ∷ cs) db j n =
    Progressed-trans (apply-Progressed c db j n) (replay-Progressed cs (apply c db).0 j n)
