-- ===== src/Store/Comparison.antt =====
-- src/eda_lab/store.py, `new_violations`: what the comparison of two revisions reports.
use mathlib.Core.List.{Memᴰ}
use semiconductor_domain_lab.Prelude.{
  ℕ, ◌↔◌, sym, ◌∙◌, eq_iff, String, true, false, ◌&&◌, Option, none, some, [], ◌≡◌, refl, inl, inr,
  arith, Bool-cases, str_eq_refl,
}
use semiconductor_domain_lab.Prelude.Table.{fetch_one, exists_row, select_rows, order_by}
use semiconductor_domain_lab.Prelude.Rows.{
  exists-found, select-mem, mem-select, order_by-mem, mem-order_by, select_none, exists-mem,
}
use semiconductor_domain_lab.Store.Schema.{Revision, Finding, Database, is_revision}
use semiconductor_domain_lab.Models.{ℤ, is_negative}
use semiconductor_domain_lab.Store.Result.{ok}
use semiconductor_domain_lab.Store.Revisions.{
  Violations, Comparability, same_path, violates, is_new, finding_le, compare_revisions,
  new_violations,
}

-- A finding of the revision with negative slack.
abbrev pub Violates : String → Finding → Type 0
Violates revision f = (f.revision_id ≡ revision) × ((n : ℕ) × (f.slack_ns ≡ ℤ.negsuc n))

pub record SamePath (g f : Finding) : Type 0 where
  pub startpoint : g.startpoint ≡ f.startpoint
  pub endpoint : g.endpoint ≡ f.endpoint
  pub path_group : g.path_group ≡ f.path_group
  pub analysis_type : g.analysis_type ≡ f.analysis_type
  pub corner : g.corner ≡ f.corner

-- The revision has no violation of the finding's path.
abbrev pub NotBefore : Database → String → Finding → Type 0
NotBefore db revision f = (g : Finding) → Memᴰ g db.findings → Violates revision g → ¬ SamePath g f

true≢false : ¬ (true ≡ false)
true≢false e = cc

negative-negsuc : (z : ℤ) → is_negative z ≡ true → (n : ℕ) × (z ≡ ℤ.negsuc n)
negative-negsuc (ℤ.pos n) e = cc
negative-negsuc (ℤ.negsuc n) e = (n, refl)

violates-Violates : (r : String) (f : Finding) → violates r f ≡ true → Violates r f
violates-Violates r f h =
    ((eq_iff f.revision_id r).0 (ground (arith, h)), negative-negsuc f.slack_ns (ground (arith, h)))

Violates-violates : (r : String) (f : Finding) → Violates r f → violates r f ≡ true
Violates-violates r f (same, (n, e)) = rw (e, (eq_iff f.revision_id r).1 same) refl

same_path-SamePath : (g f : Finding) → same_path g f ≡ true → SamePath g f
same_path-SamePath g f h = record {
  startpoint = (eq_iff g.startpoint f.startpoint).0 (ground (arith, h));
  endpoint = (eq_iff g.endpoint f.endpoint).0 (ground (arith, h));
  path_group = (eq_iff g.path_group f.path_group).0 (ground (arith, h));
  analysis_type = (eq_iff g.analysis_type f.analysis_type).0 (ground (arith, h));
  corner = (eq_iff g.corner f.corner).0 (ground (arith, h));
}

SamePath-same_path : (g f : Finding) → SamePath g f → same_path g f ≡ true
SamePath-same_path g f s =
    rw
      (
        (eq_iff g.startpoint f.startpoint).1 s.startpoint,
        (eq_iff g.endpoint f.endpoint).1 s.endpoint,
        (eq_iff g.path_group f.path_group).1 s.path_group,
        (eq_iff g.analysis_type f.analysis_type).1 s.analysis_type,
        (eq_iff g.corner f.corner).1 s.corner,
      )
      refl

module _ (db : Database) (b c : String) where
  reported :
      (f : Finding)
      → is_new db b c f ≡ true
      → (violates c f ≡ true)
        × (exists_row (λ g. violates b g && same_path g f) db.findings ≡ false)
  unfolding is_new
  reported f h = ground arith

  -- A comparable pair of revisions: which findings are reported.
  compared :
      (x y : Option Revision) (v : Violations)
      → compare_revisions db b c x y ≡ ok v
      → v.comparability ≡ Comparability.comparable
      → v.findings ≡ order_by finding_le (select_rows (is_new db b c) db.findings)
  unfolding compare_revisions
  compared none y v h e = absurd (cc)
  compared (some x) none v h e = absurd (cc)
  compared (some x) (some y) v h e = ground arith

  query-mem :
      (v : Violations)
      → new_violations db b c ≡ ok v
      → v.comparability ≡ Comparability.comparable
      → (f : Finding)
      → (Memᴰ f v.findings
          → Memᴰ f db.findings
            × (violates c f ≡ true)
            × (exists_row (λ g. violates b g && same_path g f) db.findings ≡ false))
        × (Memᴰ f db.findings
            → violates c f ≡ true
            → exists_row (λ g. violates b g && same_path g f) db.findings ≡ false
            → Memᴰ f v.findings)
  unfolding new_violations
  query-mem v h e f =
      let same =
        compared (fetch_one (is_revision b) db.revisions) (fetch_one (is_revision c) db.revisions) v
          h e in
      (
        λ m.
            let s =
              select-mem (is_new db b c) f db.findings
                (order_by-mem finding_le f _ (rw same at m)) in
            (s.0, (reported f s.1).0, (reported f s.1).1),
        λ m neg fresh. rw same (
            mem-order_by finding_le f
              (mem-select (is_new db b c) f m (unfold is_new in ground arith))),
      )

  -- Of two comparable revisions, `new_violations` reports exactly the stored findings of the
  -- candidate with negative slack whose path has no finding of negative slack in the baseline; two
  -- findings are of one path when their startpoints, endpoints, path groups, analysis types and
  -- corners are the same.
  pub new_violations-mem :
      (v : Violations)
      → new_violations db b c ≡ ok v
      → v.comparability ≡ Comparability.comparable
      → (f : Finding) → Memᴰ f v.findings ↔ (Memᴰ f db.findings × Violates c f × NotBefore db b f)
  new_violations-mem v h e f =
      let q = query-mem v h e f in
      (
        λ m.
            let r = q.0 m in
            (
              r.0,
              violates-Violates c f r.1,
              λ g there bad same. true≢false (
                  sym (
                    exists-mem (λ g. violates b g && same_path g f) g there
                      (rw (Violates-violates b g bad, SamePath-same_path g f same) refl))
                  ∙ r.2),
            ),
        λ (there, bad, fresh).
            q.1 there (Violates-violates c f bad)
              (elim (Bool-cases (exists_row (λ g. violates b g && same_path g f) db.findings)) [
                | inr none_found ↦ none_found
                | inl found ↦
                    let r = exists-found (λ g. violates b g && same_path g f) db.findings found in
                    absurd (
                      fresh r.0 r.1 (violates-Violates b r.0 (ground (arith, r.2)))
                        (same_path-SamePath r.0 f (ground (arith, r.2))))
              ]),
      )

-- A revision that is there has no new violations against itself.
pub new_violations_self :
    (db : Database) (r : String) (row : Revision)
    → fetch_one (is_revision r) db.revisions ≡ some row
    → new_violations db r r
      ≡ ok (record { comparability = Comparability.comparable; findings = [] })
unfolding new_violations
new_violations_self db r row here =
    rw here
      (simp (str_eq_refl, select_none (is_new db r r) db.findings old) (unfold order_by in refl))
  where
    old : (f : Finding) → Memᴰ f db.findings → is_new db r r f ≡ false
    old f m = elim (Bool-cases (violates r f)) [
      | inr fine ↦ unfold is_new in rw fine
      | inl bad ↦
          unfold is_new in
          rw (bad, exists-mem (λ b. violates r b && same_path b f) f m (rw bad (simp str_eq_refl)))
    ]
