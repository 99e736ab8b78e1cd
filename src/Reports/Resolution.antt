-- ===== src/Reports/Resolution.antt =====
-- Reports that are created and resolved (src/reports/reports.service.ts).
use samy.Prelude.{
  ℕ, ◌==◌, Option-cases, Bool-cases, inl, inr, ◌≡◌, ◌≢◌, true, false, some, ◌∷◌, String, arith, any,
  find_first, ==_refl,
}
use samy.Database.Rows.{Report}
use samy.Database.{Db, ok}
use samy.Database.Queries.{find_user}
use samy.Reports.{
  CreateReportDto, create, includes, resolutions, resolve, resolved, new_report, reasons,
}

-- What holds where `create` returns a report.
record Created (id reporter_id : ℕ) (dto : CreateReportDto) (now : ℕ) (db : Db) (r : Report)
    : Type 0 where
  target_id : ℕ
  other : (target_id == reporter_id) ≡ false
  valid : includes reasons dto.reason ≡ true
  is_new : r ≡ new_report id reporter_id target_id dto now
  after : (create id reporter_id dto now db).1 ≡ record db { reports = r ∷ db.reports }

create-Created :
    (id reporter_id : ℕ) (dto : CreateReportDto) (now : ℕ) (db : Db) (r : Report)
    → (create id reporter_id dto now db).0 ≡ ok r
    → Created id reporter_id dto now db r
unfolding create
create-Created id reporter_id dto now db r h = elim (Option-cases dto.reported_user_id) [
  | inl e ↦ absurd (ground arith)
  | inr (target_id, e) ↦ elim (Bool-cases (target_id == reporter_id)) [
    | inl self ↦ absurd (ground arith)
    | inr other ↦ elim (Bool-cases (includes reasons dto.reason)) [
      | inr bad ↦ absurd (ground arith)
      | inl valid ↦ elim (Option-cases (find_user target_id db)) [
        | inl e' ↦ absurd (ground arith)
        | inr (user, e') ↦ elim (Bool-cases (any (λ q. q.id == id) db.reports)) [
          | inl used ↦ absurd (ground arith)
          | inr free ↦ record {
            target_id = target_id;
            other = other;
            valid = valid;
            is_new = ground arith;
            after = ground arith;
          }
        ]
      ]
    ]
  ]
]

-- A report that `create` returns names a user other than the reporter and one of the reasons, and
-- resolving it by its id with an admitted status returns and leaves it found with that status and
-- the time of the resolution.
pub create-resolve :
    (id reporter_id : ℕ) (dto : CreateReportDto) (now later : ℕ) (status : String) (db : Db)
    (r : Report)
    → (create id reporter_id dto now db).0 ≡ ok r
    → includes resolutions status ≡ true
    → let after = resolve id status later (create id reporter_id dto now db).1 in
      (r.reported_user_id ≢ reporter_id)
      × (includes reasons r.reason ≡ true)
      × (after.0 ≡ ok tt)
      × (find_first (λ q. q.id == id) after.1.reports ≡ some (resolved status later r))
unfolding resolve
create-resolve id reporter_id dto now later status db r h admitted =
    let c = create-Created id reporter_id dto now db r h in
    rw c.after (
      ground (arith, c.is_new),
      ground (arith, c.is_new, c.valid),
      ground (arith, c.is_new, ==_refl id),
      ground (arith, c.is_new, ==_refl id),
    )
