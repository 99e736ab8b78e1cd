-- ===== src/Ranking/Top.antt =====
-- The leaderboard: `top` of src/ranking/ranking.service.ts and the limit that
-- src/ranking/ranking.controller.ts reads. `groupBy` gives its groups in no order; here a group
-- stands where its oldest row does.
pub mod Order
pub mod Board
pub mod Leads
use samy.Prelude.{
  ℕ, suc, ◌*◌, ◌/◌, ◌^◌, Bool, true, false, ◌||◌, Option, none, some, List, [], ◌∷◌, map, String,
  ◌==◌, any, ltb, if◌then◌else◌, take, sort_by,
}
use samy.Prelude.Int.{ℤ, pos, ltb_ℤ}
use samy.Database.Accounts.{Account}
use samy.Database.Rows.{LedgerEntry, ModelProfile}
use samy.Database.{Db, Action, query}
use samy.Database.Queries.{find_profile}
use samy.Wallet.Amount.{Decimal, nan, dec}
use samy.Ranking.{Tier, TierRow, TierInfo, gross_earned, tier_for_earnings}

-- A group of the query, its account without `model:`.
pub record Earner : Type 0 where
  pub model_id : ℕ
  pub earned : ℤ

pub record TopRow : Type 0 where
  pub rank : ℕ
  pub model_id : ℕ
  pub stage_name : String
  pub tier : Tier

-- `account: { startsWith: 'model:' }`.
abbrev pub model_of : Account → Option ℕ
model_of (Account.model m) = some m
model_of _ = none

abbrev pub has_model : ℕ → List ℕ → Bool
has_model m = any (λ i. i == m)

abbrev pub add_once : ℕ → List ℕ → List ℕ
add_once m ms = if has_model m ms then ms else m ∷ ms

abbrev pub add_earner : Option ℕ → ℤ → List ℕ → List ℕ
add_earner none amount ms = ms
add_earner (some m) amount ms = if ltb_ℤ (pos 0) amount then add_once m ms else ms

-- The accounts of the groups.
unfoldable pub earner_ids : List LedgerEntry → List ℕ
earner_ids [] = []
earner_ids (e ∷ es) = add_earner (model_of e.account) e.amount (earner_ids es)

abbrev pub earner : List LedgerEntry → ℕ → Earner
earner l m = record { model_id = m; earned = gross_earned m l }

abbrev pub grouped : List LedgerEntry → List Earner
grouped l = map (earner l) (earner_ids l)

-- `b.earned.comparedTo(a.earned)`.
abbrev pub earned_more : Earner → Earner → Bool
earned_more a b = ltb_ℤ b.earned a.earned

abbrev pub ranked : ℕ → List LedgerEntry → List Earner
ranked limit l = take limit (sort_by earned_more (grouped l))

-- `filter((r) => nameOf.has(r.modelId))`, with the names.
abbrev pub with_name :
    Earner → Option ModelProfile → List (Earner × String) → List (Earner × String)
with_name r none rest = rest
with_name r (some p) rest = (r, p.stage_name) ∷ rest

abbrev pub named : Db → List Earner → List (Earner × String)
named db [] = []
named db (r ∷ rs) = with_name r (find_profile r.model_id db) (named db rs)

abbrev pub top_row : ℕ → Earner → String → Option TierInfo → Option TopRow
top_row i r name none = none
top_row i r name (some info) =
    some (record { rank = suc i; model_id = r.model_id; stage_name = name; tier = info.tier })

abbrev pub cons_row : Option TopRow → Option (List TopRow) → Option (List TopRow)
cons_row (some row) (some rows) = some (row ∷ rows)
cons_row _ _ = none

-- The rows from index `i` on; `none` where a tier is undefined, so only for an empty table.
unfoldable pub top_rows : List TierRow → ℕ → List (Earner × String) → Option (List TopRow)
top_rows table i [] = some []
top_rows table i ((r, name) ∷ rs) =
    cons_row (top_row i r name (tier_for_earnings r.earned table)) (top_rows table (suc i) rs)

unfoldable pub top : List TierRow → ℕ → Action (Option (List TopRow))
top table limit = query λ db. top_rows table 0 (named db (ranked limit db.ledger))

-- `limit` of the controller: `Number(limitRaw)` as a decimal, `nan` where it is not finite.
abbrev pub limit_of : Decimal → ℕ
limit_of nan = 20
limit_of (dec true m p) = 20
limit_of (dec false m p) = if ltb m (10 ^ p) || ltb (100 * 10 ^ p) m then 20 else m / 10 ^ p
