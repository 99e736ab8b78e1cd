-- ===== src/Reports.antt =====
-- src/reports/reports.service.ts. A reported id that is missing or empty is `none`.
pub mod Resolution
use text.Mathlib.Text.{◌==◌ as str_eq}
use samy.Prelude.{
  ℕ, Bool, true, false, not, ◌==◌, Option, none, some, List, [], ◌∷◌, String, ltb, if◌then◌else◌,
  any, find_first, find_many, update_many, sort_by, take, map,
}
use samy.Database.Rows.{Report, User, ModelProfile}
use samy.Database.{
  Db, Action, Error, Result, ok, err, bad_request, not_found, unique_violation, pure, raise,
  raise_if, query, or_raise, modify, ◌>>=◌, ◌>>◌,
}
use samy.Database.Queries.{find_user, find_profile}

abbrev pub reasons : List String
reasons = "EXPLICITO" ∷ "ENCONTRO_FORA" ∷ "ASSEDIO" ∷ "MENOR" ∷ "GOLPE" ∷ "OUTRO" ∷ []

abbrev pub resolutions : List String
resolutions = "REVIEWED" ∷ "DISMISSED" ∷ []

-- `includes`.
abbrev pub includes : List String → String → Bool
includes words w = any (str_eq w) words

pub record CreateReportDto : Type 0 where
  pub reported_user_id : Option ℕ
  pub call_id : Option ℕ
  pub reason : String
  pub details : Option String

abbrev pub new_report : ℕ → ℕ → ℕ → CreateReportDto → ℕ → Report
new_report id reporter_id reported_id dto now = record {
  id = id;
  reporter_user_id = reporter_id;
  reported_user_id = reported_id;
  call_id = dto.call_id;
  reason = dto.reason;
  details = dto.details;
  status = "OPEN";
  created_at = now;
  resolved_at = none;
}

unfoldable pub create : ℕ → ℕ → CreateReportDto → ℕ → Action Report
create id reporter_id dto now = do
  target_id ← or_raise dto.reported_user_id (bad_request "invalid target")
  raise_if (target_id == reporter_id) (bad_request "invalid target")
  raise_if (not (includes reasons dto.reason)) (bad_request "invalid reason")
  target ← or_raise (← query (find_user target_id)) (not_found "target not found")
  raise_if (← query λ db. any (λ r. r.id == id) db.reports) unique_violation
  modify λ db. record db { reports = new_report id reporter_id target_id dto now ∷ db.reports }
  pure (new_report id reporter_id target_id dto now)

-- The name that a reported user is shown by: the stage name, the email, or (`none`) the id.
abbrev pub reported_name : ℕ → Db → Option String
reported_name id db = elim (find_profile id db) [
  | some p ↦ some p.stage_name
  | none ↦ elim (find_user id db) [ some u ↦ some u.email | none ↦ none ]
]

-- `listOpen`: the newest 200 rows of a status, each with its name.
unfoldable pub list_open : String → Action (List (Report × Option String))
list_open status = query λ db.
    map (λ (r : Report). (r, reported_name r.reported_user_id db))
      (take 200 (
        sort_by (λ a b. ltb b.created_at a.created_at)
          (find_many (λ r. str_eq r.status status) db.reports)))

abbrev pub resolved : String → ℕ → Report → Report
resolved status now r = record r { status = status; resolved_at = some now }

unfoldable pub resolve : ℕ → String → ℕ → Action (Unit {0})
resolve id status now = do
  raise_if (not (includes resolutions status)) (bad_request "invalid status")
  existing ←
      or_raise (← query λ db. find_first (λ r. r.id == id) db.reports)
        (not_found "report not found")
  modify
      λ db. record db { reports = update_many (λ r. r.id == id) (resolved status now) db.reports }
