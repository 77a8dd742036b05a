-- ===== src/Store/Delivery.antt =====
-- src/eda_lab/store.py: which request a Supervisor claims, and that no two claim the same one.
use mathlib.Core.List.{Memᴰ}
use mathlib.Core.List.Memᴰ.{head, tail}
use mathlib.Core.Path.{subst}
use mathlib.Core.Option.{some-injective}
use semiconductor_domain_lab.Prelude.{
  ℕ, ◌≤◌, String, Bool, true, false, ◌&&◌, ◌==◌, Option, none, some, List, [], ◌∷◌, ◌≡◌, ◌≢◌, refl,
  sym, ap, ◌∙◌, ◌⊎◌, inl, inr, arith, Bool-cases, Option-cases, ltb, str_eq_refl,
}
use semiconductor_domain_lab.Prelude.Table.{
  count_rows, fetch_one, select_rows, count-select, count-select_nil, count-and-le,
  fetch-update_key, count-update_le, set_if,
}
use semiconductor_domain_lab.Prelude.Rows.{count-mem, fetch-mem, select-mem}
use semiconductor_domain_lab.Store.Schema.{ExecutionRequest, Database, is_request}
use semiconductor_domain_lab.Store.Requests.{
  is_queued, is_queued_for, set_claimed, oldest, claim_request, claim_execution_request,
}
use semiconductor_domain_lab.Store.Keys.{HasKeys}

abbrev before : ExecutionRequest → ExecutionRequest → Bool
before e d = ltb d.created_at e.created_at

before_mono :
    (d e : ExecutionRequest) (es : List ExecutionRequest)
    → e.created_at ≤ d.created_at
    → count_rows (before d) es ≡ 0
    → count_rows (before e) es ≡ 0
unfolding count_rows
before_mono d e [] h c = refl
before_mono d e (x ∷ es) h c = ground (arith, before_mono d e es h)

oldest-none : (es : List ExecutionRequest) → oldest es ≡ none → es ≡ []
unfolding oldest
oldest-none [] h = refl
oldest-none (e ∷ es) h =
    absurd (elim (Option-cases (oldest es)) [ inl n ↦ ground arith | inr (d, s) ↦ ground arith ])

oldest-mem : (es : List ExecutionRequest) (e : ExecutionRequest) → oldest es ≡ some e → Memᴰ e es
unfolding oldest
oldest-mem [] e h = absurd (cc)
oldest-mem (x ∷ es) e h = elim (Option-cases (oldest es)) [
  | inl n ↦ head (ground arith)
  | inr (d, s) ↦ elim (Bool-cases (ltb d.created_at x.created_at)) [
    | inl lt ↦ tail (oldest-mem es e (ground arith))
    | inr ge ↦ head (ground arith)
  ]
]

-- None of the list is older than the one chosen.
oldest-first :
    (es : List ExecutionRequest) (e : ExecutionRequest)
    → oldest es ≡ some e
    → count_rows (before e) es ≡ 0
unfolding oldest count_rows
oldest-first [] e h = refl
oldest-first (x ∷ es) e h = elim (Option-cases (oldest es)) [
  | inl n ↦ ground (arith, ap (count_rows (before e)) (oldest-none es n))
  | inr (d, s) ↦ ground (arith, oldest-first es d s, before_mono d e es)
]

-- What a claim that returns `row` has done.
pub record Claims (db db' : Database) (now : ℕ) (host supervisor : String) (row : ExecutionRequest)
    : Type 0 where
  pub was_queued : is_queued_for host row ≡ true
  pub was_stored : fetch_one (is_request row.execution_id) db.execution_requests ≡ some row
  -- no request that was QUEUED for the host is older
  pub was_oldest : count_rows (λ e. is_queued_for host e && before row e) db.execution_requests ≡ 0
  pub is_now_claimed :
      fetch_one (is_request row.execution_id) db'.execution_requests
      ≡ some (set_claimed supervisor now row)

module _ (db : Database) (k : HasKeys db) (now : ℕ) (host supervisor : String) where
  abbrev claimed : Database × Option ExecutionRequest
  claimed = claim_execution_request db now host supervisor

  abbrev waiting : List ExecutionRequest
  waiting = select_rows (is_queued_for host) db.execution_requests

  claims :
      (row : ExecutionRequest)
      → oldest waiting ≡ some row
      → (claimed.1 ≡ some row) × Claims db claimed.0 now host supervisor row
  unfolding claim_execution_request
  claims row e =
      let m =
        select-mem (is_queued_for host) row db.execution_requests (oldest-mem waiting row e) in
      let key = is_request row.execution_id in
      let stored =
        fetch-mem key row m.0 (str_eq_refl row.execution_id) (k.request_key row.execution_id) in
      let hit : (count_rows (λ x. key x && is_queued x) db.execution_requests == 1) ≡ true =
        ground (
          arith,
          m.1,
          str_eq_refl row.execution_id,
          count-mem (λ x. key x && is_queued x) row m.0,
          count-and-le key is_queued db.execution_requests,
          k.request_key row.execution_id,
        ) in
      let marked : set_if is_queued (set_claimed supervisor now) (some row)
          ≡ some (set_claimed supervisor now row) =
        ground (arith, m.1) in
      rw (e, claim_request, hit)
        (
          refl,
          record {
            was_queued = m.1;
            was_stored = stored;
            was_oldest =
                sym (count-select (before row) (is_queued_for host) db.execution_requests)
                ∙ oldest-first waiting row e;
            is_now_claimed =
                fetch-update_key key is_queued (set_claimed supervisor now) (λ x. refl)
                  db.execution_requests
                ∙ ap (set_if is_queued (set_claimed supervisor now)) stored
                ∙ marked;
          },
        )

  -- `claim_execution_request` returns None, writing nothing, exactly where no request is QUEUED
  -- for the host; otherwise it returns an oldest such request, and has marked it CLAIMED for the
  -- supervisor.
  pub claim_execution_request_cases :
      ((claimed ≡ (db, none)) × (count_rows (is_queued_for host) db.execution_requests ≡ 0))
      ⊎ ((row : ExecutionRequest) × (claimed.1 ≡ some row)
          × Claims db claimed.0 now host supervisor row)
  unfolding claim_execution_request
  claim_execution_request_cases = elim (Option-cases (oldest waiting)) [
    | inl n ↦ inl (
      rw (n, claim_request),
      count-select_nil (is_queued_for host) db.execution_requests (oldest-none waiting n),
    )
    | inr (row, e) ↦ inr (row, (claims row e).0, (claims row e).1)
  ]

claim_request-HasKeys :
    (db : Database) (now : ℕ) (supervisor : String) (o : Option ExecutionRequest)
    → HasKeys db
    → HasKeys (claim_request db now supervisor o).0
unfolding claim_request
claim_request-HasKeys db now supervisor none k = k
claim_request-HasKeys db now supervisor (some row) k =
    elim (Bool-cases
      (count_rows (λ e. is_request row.execution_id e && is_queued e) db.execution_requests == 1)) [
        | inl p ↦ rw p (record {
          run_key = k.run_key;
          attempt_key = k.attempt_key;
          session_key = k.session_key;
          host_key = k.host_key;
          request_key = λ e.
              count-update_le (is_request e) _ _ (λ x. refl) db.execution_requests
                (k.request_key e);
          witness_key = k.witness_key;
          revision_key = k.revision_key;
        })
        | inr p ↦ rw p k
      ]

pub claim_execution_request-HasKeys :
    (db : Database) (now : ℕ) (host supervisor : String)
    → HasKeys db
    → HasKeys (claim_execution_request db now host supervisor).0
unfolding claim_execution_request
claim_execution_request-HasKeys db now host supervisor =
    claim_request-HasKeys db now supervisor
      (oldest (select_rows (is_queued_for host) db.execution_requests))

claim_execution_request-Claims :
    (db : Database) (k : HasKeys db) (now : ℕ) (host supervisor : String) (row : ExecutionRequest)
    → (claim_execution_request db now host supervisor).1 ≡ some row
    → Claims db (claim_execution_request db now host supervisor).0 now host supervisor row
claim_execution_request-Claims db k now host supervisor row c =
    elim (claim_execution_request_cases db k now host supervisor) [
      | inl (e, _) ↦ absurd (none≢some (sym (ap (λ r. r.1) e) ∙ c))
      | inr (r, e, cl) ↦
          subst (Claims db (claim_execution_request db now host supervisor).0 now host supervisor)
            (some-injective _ _ (sym e ∙ c)) cl
    ]
  where
    none≢some : {x : ExecutionRequest} → none ≡ some x → ⊥
    none≢some e = cc

-- After a claim, no Supervisor of any host is given the same request by the next claim.
pub claim_execution_request_once :
    (db : Database) (k : HasKeys db) (now later : ℕ) (host supervisor host' supervisor' : String)
    {row row' : ExecutionRequest}
    → (claim_execution_request db now host supervisor).1 ≡ some row
    → let db' = (claim_execution_request db now host supervisor).0 in
      (claim_execution_request db' later host' supervisor').1 ≡ some row'
      → row'.execution_id ≢ row.execution_id
claim_execution_request_once db k now later host supervisor host' supervisor' {row} {row'} c c'
      same =
    let first = claim_execution_request-Claims db k now host supervisor row c in
    let db' = (claim_execution_request db now host supervisor).0 in
    let k' = claim_execution_request-HasKeys db now host supervisor k in
    let second = claim_execution_request-Claims db' k' later host' supervisor' row' c' in
    not_both row' (set_claimed supervisor now row)
      (sym second.was_stored
        ∙ ap (λ i. fetch_one (is_request i) db'.execution_requests) same
        ∙ first.is_now_claimed)
      second.was_queued refl
  where
    not_both :
        (a b : ExecutionRequest)
        → some a ≡ some b
        → is_queued_for host' a ≡ true
        → is_queued b ≡ false
        → ⊥
    not_both a b e q nq = ground arith
