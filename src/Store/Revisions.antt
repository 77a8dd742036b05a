-- ===== src/Store/Revisions.antt =====
-- src/eda_lab/store.py: revisions, their findings, and the comparison of two revisions. SQLite
-- compares texts by their bytes, which is the order of their characters.
use Prim.Native.Nat.{Ordering, compare as compare_ℕ}
use Prim.Native.String.{compare}
use semiconductor_domain_lab.Prelude.{
  String, Bool, true, false, not, ◌&&◌, Option, none, some, List, [], ◌∷◌, ◌++◌, map, if◌then◌else◌,
  str_eq,
}
use semiconductor_domain_lab.Prelude.Table.{select_rows, fetch_one, exists_row, order_by}
use semiconductor_domain_lab.Models.{ℤ, pos, negsuc, is_negative}
use semiconductor_domain_lab.Store.Schema.{Revision, Finding, Database, is_revision}
use semiconductor_domain_lab.Store.Result.{
  Result, ok, err, integrity_error, revision_missing, ◌>>◌, guard,
}

unfoldable pub create_revision : Database → Revision → Result Database
create_revision db r = do
  guard (not (exists_row (is_revision r.revision_id) db.revisions)) integrity_error
  ok (record db { revisions = db.revisions ++ r ∷ [] })

-- The tuple of `save_findings` with its revision put in front.
abbrev pub of_revision : String → Finding → Finding
of_revision revision_id f = record f { revision_id = revision_id }

-- One transaction: with no such revision the first row is refused. No row is, if there is none.
unfoldable pub save_findings : Database → String → List Finding → Result Database
save_findings db revision_id [] = ok db
save_findings db revision_id (f ∷ fs) = do
  guard (exists_row (is_revision revision_id) db.revisions) integrity_error
  ok (record db { findings = db.findings ++ map (of_revision revision_id) (f ∷ fs) })

pub data Comparability : Type 0 where
  comparable incomparable condition_changed tool_changed : Comparability

pub record Violations : Type 0 where
  pub comparability : Comparability
  pub findings : List Finding

compare_ℤ : ℤ → ℤ → Ordering
compare_ℤ (pos a) (pos b) = compare_ℕ a b
compare_ℤ (pos a) (negsuc b) = Ordering.gt
compare_ℤ (negsuc a) (pos b) = Ordering.lt
compare_ℤ (negsuc a) (negsuc b) = compare_ℕ b a

then_by : Ordering → Ordering → Ordering
then_by Ordering.eq o = o
then_by Ordering.lt o = Ordering.lt
then_by Ordering.gt o = Ordering.gt

-- ORDER BY slack_ns, startpoint, endpoint, path_group, analysis_type, corner
unfoldable pub finding_le : Finding → Finding → Bool
unfolding compare_ℤ then_by
finding_le a b =
    elim (then_by (compare_ℤ a.slack_ns b.slack_ns) (
      then_by (compare a.startpoint b.startpoint) (
        then_by (compare a.endpoint b.endpoint) (
          then_by (compare a.path_group b.path_group)
            (then_by (compare a.analysis_type b.analysis_type) (compare a.corner b.corner)))))) [
              | Ordering.gt ↦ false
              | _ ↦ true
            ]

-- The columns by which a finding is the same in both revisions.
abbrev pub same_path : Finding → Finding → Bool
same_path b c =
    str_eq b.startpoint c.startpoint
    && str_eq b.endpoint c.endpoint
    && str_eq b.path_group c.path_group
    && str_eq b.analysis_type c.analysis_type
    && str_eq b.corner c.corner

abbrev pub violates : String → Finding → Bool
violates revision_id f = str_eq f.revision_id revision_id && is_negative f.slack_ns

-- The WHERE clause of the query.
unfoldable pub is_new : Database → String → String → Finding → Bool
is_new db baseline candidate c =
    violates candidate c && not (exists_row (λ b. violates baseline b && same_path b c) db.findings)

unfoldable pub compare_revisions :
    Database → String → String → Option Revision → Option Revision → Result Violations
unfolding is_new finding_le
compare_revisions db baseline_revision candidate_revision none c = err revision_missing
compare_revisions db baseline_revision candidate_revision (some b) none = err revision_missing
compare_revisions db baseline_revision candidate_revision (some b) (some c) =
    if not (str_eq b.design_id c.design_id)
    then ok (record { comparability = Comparability.incomparable; findings = [] })
    else if not (str_eq b.liberty_hash c.liberty_hash && str_eq b.sdc_hash c.sdc_hash)
    then ok (record { comparability = Comparability.condition_changed; findings = [] })
    else if not (str_eq b.tool_version c.tool_version && str_eq b.parser_version c.parser_version)
    then ok (record { comparability = Comparability.tool_changed; findings = [] })
    else ok (record {
      comparability = Comparability.comparable;
      findings =
          order_by finding_le
            (select_rows (is_new db baseline_revision candidate_revision) db.findings);
    })

unfoldable pub new_violations : Database → String → String → Result Violations
unfolding compare_revisions
new_violations db baseline_revision candidate_revision =
    compare_revisions db baseline_revision candidate_revision
      (fetch_one (is_revision baseline_revision) db.revisions)
      (fetch_one (is_revision candidate_revision) db.revisions)
