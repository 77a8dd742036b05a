-- ===== src/Postgres/Claims.antt =====
-- src/eda_lab/postgres_store.py: which Run a Worker is given, that no two are given the same one,
-- and which requests lose their dispatch capacity.
use semiconductor_domain_lab.Prelude.{
  ℕ, suc, Bool, true, false, ◌&&◌, Option, none, some, List, ◌≡◌, ◌≢◌, refl, sym, ap, ◌∙◌, ◌⊎◌, inl,
  inr, arith, Option-cases, ltb, str_eq_refl,
}
use semiconductor_domain_lab.Prelude.Table.{
  count_rows, select_rows, set_if, count-select, count-select_nil, fetch-update, count-update_le,
}
use semiconductor_domain_lab.Prelude.Rows.{fetch-mem, select-mem}
use semiconductor_domain_lab.Prelude.Earliest.{
  earliest, earliest-none, earliest-mem, earliest-first, count-update_one,
}
use semiconductor_domain_lab.Models.{JobSpec}
use semiconductor_domain_lab.Store.Schema.{Run, Database, is_run}
use semiconductor_domain_lab.Store.Runs.{is_in_flight}
use semiconductor_domain_lab.Store.Keys.{HasKeys, run_at}
use semiconductor_domain_lab.Postgres.Dispatch.{
  Central, is_queued_run, candidate, set_running, claim_run, claim_next_run,
  release_terminal_execution_requests,
}

-- What a claim of `row` has done.
pub record Dispatched (db db' : Database) (now : ℕ) (row : Run) : Type 0 where
  pub was_queued : is_queued_run row ≡ true
  pub was_stored : run_at db row.job_id ≡ some row
  -- no QUEUED Run is older
  pub was_oldest : count_rows (λ r. is_queued_run r && ltb r.updated_at row.updated_at) db.runs ≡ 0
  pub is_now_running : run_at db' row.job_id ≡ some (set_running now row)
  pub in_flight_kept : count_rows is_in_flight db'.runs ≡ count_rows is_in_flight db.runs
  pub one_less_queued : suc (count_rows is_queued_run db'.runs) ≡ count_rows is_queued_run db.runs

module _ (central : Central) (k : HasKeys central.tables) (now : ℕ) where
  abbrev claimed : Central × Option JobSpec
  claimed = claim_next_run central now

  abbrev runs : List Run
  runs = central.tables.runs

  dispatched :
      (row : Run)
      → candidate central.tables ≡ some row
      → (claimed.1 ≡ central.spec_payload row.job_id)
        × Dispatched central.tables claimed.0.tables now row
  unfolding claim_next_run candidate
  dispatched row e =
      let m =
        select-mem is_queued_run row runs
          (earliest-mem (λ r. r.updated_at) (select_rows is_queued_run runs) row e) in
      let key = is_run row.job_id in
      let stored = fetch-mem key row m.0 (str_eq_refl row.job_id) (k.run_key row.job_id) in
      let counts = λ (q : Run → Bool).
        count-update_one q key (set_running now) row runs (k.run_key row.job_id) stored in
      rw (e, claim_run)
        (
          refl,
          record {
            was_queued = m.1;
            was_stored = stored;
            was_oldest =
                sym (count-select (λ r. ltb r.updated_at row.updated_at) is_queued_run runs)
                ∙ earliest-first (λ r. r.updated_at) (select_rows is_queued_run runs) row e;
            is_now_running =
                fetch-update key key (set_running now) (λ r. refl) runs
                ∙ ap (set_if key (set_running now)) stored
                ∙ rw (str_eq_refl row.job_id);
            in_flight_kept = ground (arith, counts is_in_flight, m.1);
            one_less_queued = ground (arith, counts is_queued_run, m.1);
          },
        )

  -- `claim_next_run` returns None, writing nothing, exactly where no Run is QUEUED; otherwise it
  -- returns the payload of an oldest QUEUED Run and has set it RUNNING, which takes it from the
  -- queue and keeps the number of Runs in flight.
  pub claim_next_run_cases :
      ((claimed ≡ (central, none)) × (count_rows is_queued_run runs ≡ 0))
      ⊎ ((row : Run) × (claimed.1 ≡ central.spec_payload row.job_id)
          × Dispatched central.tables claimed.0.tables now row)
  unfolding claim_next_run candidate
  claim_next_run_cases =
      elim (Option-cases (earliest (λ r. r.updated_at) (select_rows is_queued_run runs))) [
        | inl n ↦ inl (
          rw (n, claim_run),
          count-select_nil is_queued_run runs
              (earliest-none (λ r. r.updated_at) (select_rows is_queued_run runs) n),
        )
        | inr (row, e) ↦ inr (row, (dispatched row e).0, (dispatched row e).1)
      ]

pub claim_next_run-HasKeys :
    (central : Central) (now : ℕ)
    → HasKeys central.tables
    → HasKeys (claim_next_run central now).0.tables
unfolding claim_next_run
claim_next_run-HasKeys central now k = elim (Option-cases (candidate central.tables)) [
  | inl n ↦ rw (n, claim_run) k
  | inr (row, e) ↦
      rw (e, claim_run)
        (record {
          run_key =
              λ j. count-update_le (is_run j) _ _ (λ r. refl) central.tables.runs (k.run_key j);
          attempt_key = k.attempt_key;
          session_key = k.session_key;
          host_key = k.host_key;
          request_key = k.request_key;
          witness_key = k.witness_key;
          revision_key = k.revision_key;
        })
]

-- Two claims one after the other, of one Worker or of two, are of different Runs.
pub claim_next_run_once :
    (central : Central) (k : HasKeys central.tables) (now : ℕ) {row row' : Run}
    → candidate central.tables ≡ some row
    → candidate (claim_next_run central now).0.tables ≡ some row'
    → row'.job_id ≢ row.job_id
claim_next_run_once central k now {row} {row'} first second same =
    let central' = (claim_next_run central now).0 in
    let old = (dispatched central k now row first).1 in
    let new = (dispatched central' (claim_next_run-HasKeys central now k) now row' second).1 in
    not_both row' (set_running now row)
      (sym new.was_stored ∙ ap (run_at central'.tables) same ∙ old.is_now_running) new.was_queued
      refl
  where
    not_both : (a b : Run) → some a ≡ some b → is_queued_run a ≡ true → is_queued_run b ≡ false → ⊥
    not_both a b e q nq = ground arith

module _ (db : Database) where
  abbrev released : Database × ℕ
  released = release_terminal_execution_requests db
