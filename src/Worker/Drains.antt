-- ===== src/Worker/Drains.antt =====
-- src/eda_lab/worker.py: a Worker's loop ends with the queue empty, and stays in its bounds.
use semiconductor_domain_lab.Prelude.{
  ℕ, zero, suc, ◌+◌, ◌*◌, ◌≤◌, ◌<◌, String, Bool, true, false, not, if◌then◌else◌, Option, none,
  some, List, [], ◌∷◌, ◌≡◌, ◌≢◌, refl, ap, sym, ◌∙◌, ◌⊎◌, inl, inr, arith, leb, ltb, length,
  length-append, Bool-cases, Option-cases,
}
use semiconductor_domain_lab.Prelude.Table.{count_rows}
use semiconductor_domain_lab.Models.{JobSpec}
use semiconductor_domain_lab.Store.Keys.{HasKeys}
use semiconductor_domain_lab.Postgres.Dispatch.{
  Central, is_queued_run, candidate, claim_run, claim_next_run,
}
use semiconductor_domain_lab.Postgres.Claims.{claim_next_run_cases, claim_next_run-HasKeys}
use semiconductor_domain_lab.Worker.{
  Worker, Waited, Loop, has_capacity, dispatched, collected, turn, drain_loop,
}

abbrev pub queued : Central → ℕ
queued central = count_rows is_queued_run central.tables.runs

-- A store whose rows have their keys and whose Runs all have a payload.
pub record Sound (central : Central) : Type 0 where
  pub keys : HasKeys central.tables
  pub payloads : (job_id : String) → central.spec_payload job_id ≢ none

-- What `wait` does when at least one future is there: one of them is done, the store stays sound, and
-- nothing is put into the queue.
abbrev pub Waits : (Central → List String → Waited) → Type 0
Waits wait =
    (central : Central) (active : List String)
    → Sound central
    → active ≢ []
    → Sound (wait central active).central
      × (length (wait central active).pending < length active)
      × (queued (wait central active).central ≤ queued central)

-- The rounds that are left.
abbrev measure : Loop → ℕ
measure l = 2 * queued l.central + length l.active

-- What a round leaves: it goes on with fewer rounds left, or the queue is empty.
Progress : Loop → Loop × Bool → Type 0
Progress l next =
    Sound next.0.central
    × ((next.1 ≡ true) × (measure next.0 < measure l)
        ⊎ (next.1 ≡ false) × (queued next.0.central ≡ 0))

dispatched-Progress :
    (l : Loop) (r : Central × Option JobSpec)
    → Sound r.0
    → (r.1 ≡ none → queued r.0 ≡ 0)
    → (r.1 ≢ none → suc (queued r.0) ≡ queued l.central)
    → Progress l (dispatched l r)
unfolding Progress
dispatched-Progress l (central, none) s empty less = (s, inr (refl, empty refl))
dispatched-Progress l (central, some spec) s empty less =
    (s, inl (refl, omega (arith, less some-none, length-append l.active (spec.job_id ∷ []))))
  where
    some-none : some spec ≢ none
    some-none h = cc

claim_next_run-payload :
    (central : Central) (now : ℕ)
    → (claim_next_run central now).0.spec_payload ≡ central.spec_payload
unfolding claim_next_run
claim_next_run-payload central now = elim (Option-cases (candidate central.tables)) [
  | inl n ↦ rw (n, claim_run) refl
  | inr (row, e) ↦ rw (e, claim_run) refl
]

claim_next_run-Sound :
    (central : Central) (now : ℕ) → Sound central → Sound (claim_next_run central now).0
claim_next_run-Sound central now s = record {
  keys = claim_next_run-HasKeys central now s.keys;
  payloads =
      λ j h. s.payloads j (sym (ap (λ column. column j) (claim_next_run-payload central now)) ∙ h);
}

claim-Progress :
    (l : Loop) (now : ℕ)
    → Sound l.central
    → Progress l (dispatched l (claim_next_run l.central now))
claim-Progress l now s = elim (claim_next_run_cases l.central s.keys now) [
  | inl (same, empty) ↦
      dispatched-Progress l (claim_next_run l.central now) (claim_next_run-Sound l.central now s)
        (λ h. ap (λ r. queued r.0) same ∙ empty) (λ h. absurd (h (ap (λ r. r.1) same)))
  | inr (row, payload, claimed) ↦
      dispatched-Progress l (claim_next_run l.central now) (claim_next_run-Sound l.central now s)
        (λ h. absurd (s.payloads row.job_id (sym payload ∙ h))) (λ h. claimed.one_less_queued)
]

module _ (w : Worker) (wait : Central → List String → Waited) (now : ℕ)
    (unbounded : w.max_jobs ≡ none) (unlimited : w.dispatch ≡ none) (positive : 1 ≤ w.concurrency)
    (waits : Waits wait) where
  collected-Progress :
      (l : Loop)
      → Sound l.central
      → leb w.concurrency (length l.active) ≡ true
      → Progress l (collected l (wait l.central l.active))
  unfolding Progress
  collected-Progress l s full =
      let some_active = λ (e : l.active ≡ []). absurd (ground (arith, full, positive, e)) in
      let after = waits l.central l.active s some_active in
      (after.0, inl (refl, omega (arith, after.1, after.2)))

  turn-Progress : (l : Loop) → Sound l.central → Progress l (turn w wait now l)
  unfolding turn
  turn-Progress l s = rw unbounded (
      rw unlimited (elim (Bool-cases (leb w.concurrency (length l.active))) [
        | inl full ↦ rw full (collected-Progress l s full)
        | inr room ↦ rw room (claim-Progress l now s)
      ]))

  -- A Worker of positive concurrency, without a limit on its jobs or its dispatch, ends its loop and
  -- leaves no Run QUEUED, where the primary keys hold and every job identifier has a JobSpec payload
  -- that is not NULL, and where each wait on some futures keeps both, finds a future done and queues
  -- nothing new: two rounds for each QUEUED Run, one for each job that already runs and one more are
  -- enough.
  pub drain_loop-empties :
      (fuel : ℕ) (l : Loop)
      → Sound l.central
      → measure l < fuel
      → (final : Loop) × (drain_loop w wait now fuel l ≡ some final) × (queued final.central ≡ 0)
  unfolding drain_loop Progress
  drain_loop-empties zero l s enough = absurd (omega arith)
  drain_loop-empties (suc fuel) l s enough =
      let p = turn-Progress l s in
      elim p.1 [
        | inl go ↦
            let r =
              drain_loop-empties fuel (turn w wait now l).0 p.0 (omega (arith, go.1, enough)) in
            (r.0, rw go.0 r.1, r.2)
        | inr stop ↦ ((turn w wait now l).0, rw stop.0 refl, stop.1)
      ]

-- What a bounded Worker keeps: no more than `m` jobs, and no more at once than its concurrency.
abbrev pub Bounded : Worker → ℕ → Loop → Type 0
Bounded w m l = (length l.completed + length l.active ≤ m) × (length l.active ≤ w.concurrency)

if-Bounded :
    (w : Worker) (m : ℕ) (b : Bool) (x y : Loop × Bool)
    → (b ≡ true → Bounded w m x.0)
    → (b ≡ false → Bounded w m y.0)
    → Bounded w m (if b then x else y).0
if-Bounded w m true x y h k = h refl
if-Bounded w m false x y h k = k refl

collected-Bounded :
    (w : Worker) (m : ℕ) (l : Loop) (waited : Waited)
    → Bounded w m l
    → length waited.done + length waited.pending ≡ length l.active
    → Bounded w m (collected l waited).0
collected-Bounded w m l waited b parted =
    (omega (arith, b.0, parted, length-append l.completed waited.done), omega (arith, b.1, parted))

dispatched-Bounded :
    (w : Worker) (m : ℕ) (l : Loop) (r : Central × Option JobSpec)
    → Bounded w m l
    → length l.completed + length l.active < m
    → length l.active < w.concurrency
    → Bounded w m (dispatched l r).0
dispatched-Bounded w m l (central, none) b below room = b
dispatched-Bounded w m l (central, some spec) b below room = (
  omega (arith, below, length-append l.active (spec.job_id ∷ [])),
  omega (arith, room, length-append l.active (spec.job_id ∷ [])),
)

-- What a number of rounds leaves.
unfoldable pub after : Worker → (Central → List String → Waited) → ℕ → ℕ → Loop → Loop
after w wait now zero l = l
after w wait now (suc rounds) l = after w wait now rounds (turn w wait now l).0

drain_loop-after :
    (w : Worker) (wait : Central → List String → Waited) (now fuel : ℕ) (l : Loop)
    → (drain_loop w wait now fuel l ≡ none)
      ⊎ ((r : ℕ) × (r ≤ fuel) × (drain_loop w wait now fuel l ≡ some (after w wait now r l)))
unfolding drain_loop after
drain_loop-after w wait now zero l = inl refl
drain_loop-after w wait now (suc fuel) l = elim (Bool-cases (turn w wait now l).1) [
  | inr stop ↦ inr (1, omega arith, rw stop refl)
  | inl go ↦ elim (drain_loop-after w wait now fuel (turn w wait now l).0) [
    | inl out ↦ inl (rw (go, out) refl)
    | inr (r, less, e) ↦ inr (suc r, omega (arith, less), rw (go, e) refl)
  ]
]

module _ (w : Worker) (wait : Central → List String → Waited) (now m : ℕ)
    (bound : w.max_jobs ≡ some m)
    (parted : (central : Central) (active : List String)
      → length (wait central active).done + length (wait central active).pending
        ≡ length active) where
  turn-Bounded : (l : Loop) → Bounded w m l → Bounded w m (turn w wait now l).0
  unfolding turn
  turn-Bounded l b = rw bound (
      if-Bounded w m (not (ltb (length l.completed + length l.active) m)) (l, false) _ (λ full. b)
        (λ below.
          if-Bounded w m (not (has_capacity w.dispatch l.central)) (l, false) _ (λ stop. b)
            (λ go.
              if-Bounded w m (leb w.concurrency (length l.active))
                (collected l (wait l.central l.active))
                (dispatched l (claim_next_run l.central now))
                (λ busy.
                  collected-Bounded w m l (wait l.central l.active) b (parted l.central l.active))
                (λ room.
                  dispatched-Bounded w m l (claim_next_run l.central now) b (ground (arith, below))
                    (ground (arith, room))))))

  Bounded-after : (rounds : ℕ) (l : Loop) → Bounded w m l → Bounded w m (after w wait now rounds l)
  unfolding after
  Bounded-after zero l b = b
  Bounded-after (suc rounds) l b = Bounded-after rounds (turn w wait now l).0 (turn-Bounded l b)

  -- A Worker with a limit on its jobs that starts within its bounds has, after any number of rounds,
  -- whether its loop ever ends or not, no more jobs completed and running than that limit, and no more
  -- running at once than its concurrency, whatever the store holds and however the waits part the
  -- futures; and where `drain_loop` ends, with `fuel` rounds or fewer, it ends with what some number
  -- of those rounds leaves.
  pub drain_loop-Bounded :
      (fuel rounds : ℕ) (l : Loop)
      → Bounded w m l
      → Bounded w m (after w wait now rounds l)
        × ((drain_loop w wait now fuel l ≡ none)
            ⊎ ((r : ℕ) × (r ≤ fuel) × (drain_loop w wait now fuel l ≡ some (after w wait now r l))))
  drain_loop-Bounded fuel rounds l b =
      (Bounded-after rounds l b, drain_loop-after w wait now fuel l)
