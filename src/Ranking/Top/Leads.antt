-- ===== src/Ranking/Top/Leads.antt =====
-- The leaderboard of src/ranking/ranking.service.ts leads: nobody who has received more is left out,
-- and nobody at all who has received something while there is room.
use samy.Prelude.{ℕ, ◌≡◌, String, Bool, true, false, List, ◌⊎◌, any, All, length, some, none}
use samy.Prelude.Int.{pos, ◌≤ℤ◌}
use samy.Database.Rows.{LedgerEntry}
use samy.Ranking.{gross_earned}
use samy.Database.{Db}
use samy.Database.Queries.{find_profile}
use samy.Ranking.{TierRow}
use samy.Ranking.Top.{TopRow, top_rows, Earner, ranked}
use samy.Ranking.Top.Board.{is_named, is_row_of, IsBoard}

-- The rows that are shown of named earners.
record Shown (table : List TierRow) (l : List LedgerEntry) (i : ℕ) (rs : List (Earner × String))
    : Type 1 where
  rows : List TopRow
  shows : top_rows table i rs ≡ some rows
  board : IsBoard table l i rows
  every :
      (P : ℕ → Type 0)
      → All (λ (r : Earner × String). P r.0.model_id) rs
      → All (λ (q : TopRow). P q.model_id) rows
  has : (m : ℕ) → any (is_row_of m) rows ≡ any (is_named m) rs
  size : length rows ≡ length rs

-- The row of a model's profile is there.
abbrev pub has_profile : Db → Earner → Bool
has_profile db r = elim (find_profile r.model_id db) [ none ↦ false | some p ↦ true ]

-- A model that is not among the first rows has received nothing, or the rows are as many as were
-- asked for; and it has received no more than any model that is among them.
abbrev pub IsOutside : ℕ → ℕ → List LedgerEntry → Type 0
IsOutside limit m l =
    ((gross_earned m l ≡ pos 0) ⊎ (length (ranked limit l) ≡ limit))
    × All (λ r. gross_earned m l ≤ℤ gross_earned r.model_id l) (ranked limit l)
