-- ===== src/Service/Trust.antt =====
-- src/eda_lab/service.py: when a Run is TRUSTED, when it SUCCEEDED, and how the two agree.
use semiconductor_domain_lab.Prelude.{
  false, Option, some, ◌≡◌, refl, ◌≢◌, ◌↔◌, ◌⊎◌, inl, inr, arith,
}
use semiconductor_domain_lab.Models.{
  ℤ, pos, ParseStatus, Validity, TrustStatus, RunStatus, AttemptStatus, ParseResult,
}
use semiconductor_domain_lab.Store.Schema.{ExecutionOwner}
use semiconductor_domain_lab.Service.Validation.{
  is_parse_invalid, is_invalid, Collected, Verdict, verdict, outcome_of, run_status_of,
  trust_status, completion_of,
}

-- A result is TRUSTED exactly where its report parsed OK, its semantics and its provenance are
-- VALID, and its process is known to have exited with 0.
pub trust_status-trusted_iff :
    (r : ParseResult) (code : Option ℤ)
    → (trust_status r code ≡ TrustStatus.trusted) ↔ (
        (r.parse_status ≡ ParseStatus.ok)
        × (r.semantic_status ≡ Validity.valid)
        × (r.provenance_status ≡ Validity.valid)
        × (code ≡ some (pos 0)))
unfolding trust_status
trust_status-trusted_iff r code = (λ h. ground arith, λ h. ground arith)

-- A collected result ends its Run as SUCCEEDED exactly where the report is not INVALID, in parse
-- or semantics, and its process is known to have exited with 0, and as FAILED otherwise; the Attempt ends as SUCCEEDED
-- with a SUCCEEDED Run and as FAILED with a FAILED one.
pub completion_of-succeeded_iff :
    (owner : Option ExecutionOwner) (c : Collected)
    → (((completion_of owner c).run_status ≡ RunStatus.succeeded) ↔ (
        (c.result.parse_status ≢ ParseStatus.invalid)
        × (c.result.semantic_status ≢ Validity.invalid)
        × (c.process_exit_code ≡ some (pos 0))))
      × (((completion_of owner c).run_status ≡ RunStatus.succeeded)
            × ((completion_of owner c).outcome.status ≡ AttemptStatus.succeeded)
          ⊎ ((completion_of owner c).run_status ≡ RunStatus.failed)
            × ((completion_of owner c).outcome.status ≡ AttemptStatus.failed))
unfolding completion_of
completion_of-succeeded_iff owner c = (
  (
    λ h. (λ e. ground arith, λ e. ground arith, ground arith),
    λ h. ground (
      arith,
      h.0,
      h.1,
      not_invalid_parse c.result.parse_status,
      not_invalid c.result.semantic_status,
    ),
  ),
  statuses (verdict c),
)
  where
    statuses :
        (v : Verdict)
        → (run_status_of v ≡ RunStatus.succeeded)
            × ((outcome_of v c).status ≡ AttemptStatus.succeeded)
          ⊎ (run_status_of v ≡ RunStatus.failed) × ((outcome_of v c).status ≡ AttemptStatus.failed)
    statuses Verdict.parse_invalid = inr (refl, refl)
    statuses Verdict.semantic_invalid = inr (refl, refl)
    statuses Verdict.outcome_unknown = inr (refl, refl)
    statuses Verdict.success = inl (refl, refl)
    statuses (Verdict.tool_exit code) = inr (refl, refl)

    not_invalid_parse : (s : ParseStatus) → s ≢ ParseStatus.invalid → is_parse_invalid s ≡ false
    not_invalid_parse ParseStatus.not_started n = refl
    not_invalid_parse ParseStatus.ok n = refl
    not_invalid_parse ParseStatus.invalid n = absurd (n refl)

    not_invalid : (s : Validity) → s ≢ Validity.invalid → is_invalid s ≡ false
    not_invalid Validity.unknown n = refl
    not_invalid Validity.valid n = refl
    not_invalid Validity.invalid n = absurd (n refl)

-- The trust that a completion writes and the status that it writes agree: a SUCCEEDED Run is not
-- distrusted, and a FAILED Run is not TRUSTED.
pub completion_of-trust :
    (owner : Option ExecutionOwner) (c : Collected)
    → ((completion_of owner c).run_status ≡ RunStatus.succeeded
        → (completion_of owner c).run_fields.trust_status ≢ some TrustStatus.invalid)
      × ((completion_of owner c).run_status ≡ RunStatus.failed
          → (completion_of owner c).run_fields.trust_status ≢ some TrustStatus.trusted)
unfolding completion_of
completion_of-trust owner c = (λ h e. ground arith, λ h e. ground arith)
