-- ===== src/Api/Replies.antt =====
-- src/eda_lab/api.py: what a posted job is answered with.
use semiconductor_domain_lab.Prelude.{
  ℕ, String, Bool, true, false, ◌||◌, Option, none, some, ◌≡◌, refl, arith, eq_column,
}
use semiconductor_domain_lab.Models.{JobSpec}
use semiconductor_domain_lab.Store.Schema.{Database}
use semiconductor_domain_lab.Store.Runs.{RunView, get_run}
use semiconductor_domain_lab.Service.Submit.{Config, Submitted, submit}
use semiconductor_domain_lab.Service.Idempotency.{submit-again, submit-conflict}
use semiconductor_domain_lab.Api.{Payload, sent}
use semiconductor_domain_lab.Api.Request.{Libraries, Body, Received, Read}
use semiconductor_domain_lab.Api.Post.{Handled, spec_of, post_spec, reply_to, do_post}

abbrev is_missing {ℓ} : {A : Type ℓ} → Option A → Bool
is_missing none = true
is_missing (some a) = false

spec_of-missing :
    (d : ℕ) (job design family : Option String) (b : Body)
    → b.job_id ≡ job
    → b.design_id ≡ design
    → b.ip_family ≡ family
    → (is_missing job || (is_missing design || is_missing family)) ≡ true
    → (e : String) × (spec_of d b ≡ Read.refused e)
unfolding spec_of
spec_of-missing d none design family b hj hd hf h = ("'job_id'", rw hj refl)
spec_of-missing d (some j) none family b hj hd hf h = ("'design_id'", rw hj (rw hd refl))
spec_of-missing d (some j) (some s) none b hj hd hf h = ("'ip_family'", rw hj (rw hd (rw hf refl)))
spec_of-missing d (some j) (some s) (some f) b hj hd hf h = ground arith

-- A job without its identifier, its design or its IP family is answered with 400 and the error's text:
-- the service is not asked, whatever it would do, and the database is as it was.
pub do_post-incomplete :
    (libs : Libraries) (submission : JobSpec → Database → Submitted) (b : Body) (db : Database)
    → (is_missing b.job_id || (is_missing b.design_id || is_missing b.ip_family)) ≡ true
    → (e : String) × (do_post libs submission "/jobs" (Received.body b) db
        ≡ (db, Handled.responded (sent 400 (Payload.error_text e))))
unfolding do_post post_spec
do_post-incomplete libs submission b db h =
    let r =
      spec_of-missing libs.default_duration b.job_id b.design_id b.ip_family b refl refl refl h in
    (r.0, rw r.1 refl)

-- A job that is posted again is answered with 202 and the Run that is there, and a job of another
-- hash under an identifier that is taken with 409; either way the database is as it was.
pub do_post-again :
    (libs : Libraries) (cfg : Config) (hash : JobSpec → String) (live : ℕ)
    (others : Database → Database) (now : ℕ) (b : Body) (spec : JobSpec) (db : Database)
    (v : RunView)
    → spec_of libs.default_duration b ≡ Read.read spec
    → get_run db spec.job_id ≡ some v
    → let answer = do_post libs (submit cfg hash live others now) "/jobs" (Received.body b) db in
      (v.run.spec_hash ≡ some (hash spec)
        → answer ≡ (db, Handled.responded (sent 202 (Payload.submitted (some v)))))
      × (eq_column v.run.spec_hash (hash spec) ≡ false
          → answer ≡ (db, Handled.responded (sent 409 Payload.idempotency_key_reused)))
unfolding do_post post_spec reply_to
do_post-again libs cfg hash live others now b spec db v read there = (
  (λ same. rw read (rw (submit-again cfg hash live others now spec db v there same) refl)),
  λ differs. rw read (rw (submit-conflict cfg hash live others now spec db v there differs) refl),
)
