-- ===== src/Examples/Minutes.antt =====
-- Witnesses for the charge of minutes, the split and the tiers.
use samy.Prelude.{◌≡◌, refl, ◌+◌, ◌-◌, ◌*◌, ◌≤◌, ◌<◌, some, [], ◌∷◌, arith, suc, ℕ}
use samy.Prelude.Int.{◌<ℤ◌, pos, pos_part, ◌+ℤ◌, ◌-ℤ◌, ◌*ℤ◌, neg, ◌≤ℤ◌}
use samy.Database.Accounts.{Account}
use samy.Database.Rows.{Call, CallStatus, EndReason}
use samy.Database.{ok}
use samy.Database.Queries.{find_call}
use samy.Ledger.{balance, get_balance, post_transaction}
use samy.Ranking.{get_elem?, TierRow, info_of, tier_for_earnings, gross_earned, tier_rate_for}
use samy.Ranking.Tiers.{IsAbove, tier_for_earnings-brackets}
use samy.Billing.TakeRate.{compute_split, resolve_take_rate, compute_split-nearest}
use samy.Billing.{charged, already_charged, charge_minute}
use samy.Billing.Effects.{ChargeTerms, charge_minute-effect, charge_minute-once}
use samy.Taximeter.{charge_call, due_minute}
use samy.Taximeter.Ends.{charge_call-ends}
use samy.Taximeter.CatchUp.{times, charge_call-catches_up, charge_call-runs_out}
use samy.Examples.{bronze_row, prata_row, two_tiers, talking, talking_db}

first_minute : (charge_minute two_tiers 7 1 3000 talking_db).0 ≡ ok charged
unfolding charge_minute balance gross_earned tier_for_earnings tier_rate_for ◌+ℤ◌ ◌-ℤ◌ ◌*ℤ◌ neg
    compute_split resolve_take_rate post_transaction get_balance
first_minute = refl

charge_minute-effect_example :
    ChargeTerms two_tiers 7 talking_db (charge_minute two_tiers 7 1 3000 talking_db).1
charge_minute-effect_example = charge_minute-effect two_tiers 7 1 3000 talking_db first_minute

charge_minute-once_example :
    charge_minute [] 7 1 9000 (charge_minute two_tiers 7 1 3000 talking_db).1
    ≡ (ok already_charged, (charge_minute two_tiers 7 1 3000 talking_db).1)
charge_minute-once_example = charge_minute-once two_tiers [] 7 1 3000 9000 talking_db first_minute

-- 65 seconds into the call two minutes are due; the client has 12.00 at 5.00 a minute.
charge_call-catches_up_example :
    (find_call 7 (charge_call two_tiers 67000 talking talking_db).1
      ≡ some (record talking { billed_minutes = 0 + (due_minute 67000 2000 - 0) }))
    × (balance (Account.client 1) (charge_call two_tiers 67000 talking talking_db).1.ledger
        ≡ balance (Account.client 1) talking_db.ledger
          -ℤ times (due_minute 67000 2000 - 0) (pos 500))
unfolding balance ◌+ℤ◌
charge_call-catches_up_example =
    charge_call-catches_up bronze_row (prata_row ∷ []) 67000 2000 talking talking_db refl refl refl
      (λ m h. refl) (omega arith) (omega arith)

-- 250 seconds into the call five minutes are due.
charge_call-runs_out_example :
    (find_call 7 (charge_call two_tiers 252000 talking talking_db).1
      ≡ some (record talking {
        billed_minutes = 0 + 2;
        status = CallStatus.ended;
        end_reason = some EndReason.no_credits;
        ended_at = some 252000;
      }))
    × (balance (Account.client 1) (charge_call two_tiers 252000 talking talking_db).1.ledger
        ≡ balance (Account.client 1) talking_db.ledger -ℤ times 2 (pos 500))
unfolding balance ◌+ℤ◌
charge_call-runs_out_example =
    charge_call-runs_out bronze_row (prata_row ∷ []) 252000 2000 2 talking talking_db refl refl refl
      (λ m h. refl) (omega arith) (omega arith) (omega arith) (omega arith)

-- The client has 1200 cents: 1200 minutes after the start nothing can be left.
charge_call-ends_example :
    let after = (charge_call two_tiers 72002000 talking talking_db).1 in
    let left = balance (Account.client 1) after.ledger in
    (final : Call) × (find_call 7 after ≡ some final)
    × (final.status ≡ CallStatus.ended)
    × (final.end_reason ≡ some EndReason.no_credits)
    × (final.ended_at ≡ some 72002000)
    × (pos 0 ≤ℤ left)
    × (left <ℤ pos 500)
unfolding balance ◌+ℤ◌
charge_call-ends_example =
    charge_call-ends bronze_row (prata_row ∷ []) 72002000 2000 talking talking_db refl refl refl
      (λ m h. refl) (omega arith) (omega arith) (omega arith)

compute_split-nearest_example :
    (pos_part (compute_split (pos 999) (pos 2500)).commission * 10000 ≤ 999 * 2500 + 5000)
    × (999 * 2500 < pos_part (compute_split (pos 999) (pos 2500)).commission * 10000 + 5000)
compute_split-nearest_example =
    compute_split-nearest (pos 999) (pos 2500) (omega arith) (omega arith)

tier_for_earnings-brackets_example :
    (i : ℕ) × (row : TierRow) × (get_elem? two_tiers i ≡ some row)
    × (tier_for_earnings (pos 60000) two_tiers
        ≡ some (info_of (pos 60000) row (get_elem? two_tiers (suc i))))
    × (row.min ≤ℤ pos 60000)
    × IsAbove (pos 60000) (get_elem? two_tiers (suc i))
tier_for_earnings-brackets_example =
    tier_for_earnings-brackets (pos 60000) bronze_row (prata_row ∷ []) (omega arith)
