-- ===== src/Billing/Effects.antt =====
-- What a successful `chargeMinute` (src/billing/billing.service.ts) changes, and that it succeeds
-- once.
use samy.Prelude.{
  ℕ, suc, ◌≡◌, ◌∙◌, true, false, some, List, [], ◌∷◌, ◌++◌, arith, find_first, update_many,
}
use samy.Prelude.Int.{ℤ, ◌+ℤ◌, ◌-ℤ◌, ◌≤ℤ◌, ltb_ℤ, int_laws}
use samy.Database.Accounts.{Account, Group, group_eq_refl}
use samy.Database.Rows.{Call, is_active}
use samy.Database.{Db, Result, ok}
use samy.Database.Queries.{call_has_id, find_call}
use samy.Ledger.{balance}
use samy.Ledger.Balance.{balance-rows_from, moved}
use samy.Ranking.{TierRow, tier_rate_for}
use samy.Billing.TakeRate.{Split, compute_split}
use samy.Billing.{ChargeResult, charged, already_charged, bill_one, charge_minute}
use samy.Billing.Charge.{
  ChargeOutcome, is_missing, is_replay, is_inactive, is_broke, is_crash, is_charged,
  charge_minute-outcome, charged_db, rate_of, minute_rows, minute_entries,
}

-- What one charge at a split does: who pays, who earns, and the minute that is counted.
pub record Charged (call_id : ℕ) (call : Call) (split : Split) (before after : Db) : Type 0 where
  pub was_active : is_active call.status ≡ true
  pub was_covered :
      call.price_per_minute_snapshot ≤ℤ balance (Account.client call.client_user_id) before.ledger
  pub client_pays :
      balance (Account.client call.client_user_id) after.ledger
      ≡ balance (Account.client call.client_user_id) before.ledger -ℤ call.price_per_minute_snapshot
  pub model_earns :
      balance (Account.model call.model_user_id) after.ledger
      ≡ balance (Account.model call.model_user_id) before.ledger +ℤ split.model_share
  pub platform_earns :
      balance Account.platform after.ledger
      ≡ balance Account.platform before.ledger +ℤ split.commission
  pub minute_counted :
      find_call call_id after ≡ some (record call { billed_minutes = suc call.billed_minutes })

find-bill_one :
    (id : ℕ) (cs : List Call) (c : Call)
    → find_first (call_has_id id) cs ≡ some c
    → find_first (call_has_id id) (update_many (call_has_id id) bill_one cs) ≡ some (bill_one c)
find-bill_one id [] c h = cc
find-bill_one id (x ∷ cs) c h = ground (arith, find-bill_one id cs c)

pub charged_db-Charged :
    (call_id minute : ℕ) (call : Call) (rate : ℤ) (db : Db)
    → find_call call_id db ≡ some call
    → is_active call.status ≡ true
    → ltb_ℤ (balance (Account.client call.client_user_id) db.ledger) call.price_per_minute_snapshot
      ≡ false
    → Charged call_id call
        (compute_split call.price_per_minute_snapshot rate)
        db
        (charged_db db call_id call minute rate)
charged_db-Charged call_id minute call rate db e on rich = record {
  was_active = on;
  was_covered = ground arith;
  client_pays = paid (Account.client call.client_user_id) ∙ grind (int_laws);
  model_earns = paid (Account.model call.model_user_id) ∙ grind (int_laws);
  platform_earns = paid Account.platform ∙ grind (int_laws);
  minute_counted = find-bill_one call_id db.calls call e;
}
  where
    paid :
        (a : Account)
        → balance a (minute_rows call_id call minute rate ++ db.ledger)
          ≡ moved a (minute_entries call rate) +ℤ balance a db.ledger
    paid a =
        balance-rows_from a 0 (Group.call_minute call_id minute) (minute_entries call rate)
          db.ledger

-- The terms of a charge: the call that was found and the tier's rate at the ledger.
pub record ChargeTerms (table : List TierRow) (call_id : ℕ) (before after : Db) : Type 0 where
  pub call : Call
  pub tier_rate : ℤ
  pub is_found : find_call call_id before ≡ some call
  pub tier : tier_rate_for table call.model_user_id before.ledger ≡ some tier_rate
  pub effect :
      Charged call_id call
        (compute_split call.price_per_minute_snapshot
          (rate_of table call.model_user_id before tier_rate))
        before
        after

-- Where `chargeMinute` answers that it charged, the call was found ACTIVE with its price covered by
-- the client's balance, and at the rate that the override or the tier gives: the client's balance
-- falls by the price, the model's and the platform's rise by their shares, and the call found
-- under the id has one billed minute more.
pub charge_minute-effect :
    (table : List TierRow) (call_id minute now : ℕ) (db : Db)
    → (charge_minute table call_id minute now db).0 ≡ ok charged
    → ChargeTerms table call_id db (charge_minute table call_id minute now db).1
charge_minute-effect table call_id minute now db =
    go (charge_minute-outcome table call_id minute now db)
  where
    go :
        {r : Result ChargeResult × Db}
        → ChargeOutcome table call_id minute now db r
        → r.0 ≡ ok charged
        → ChargeTerms table call_id db r.1
    go (is_missing _) h = absurd (ground arith)
    go (is_replay _) h = absurd (ground arith)
    go (is_inactive _ _ _) h = absurd (ground arith)
    go (is_broke _ _ _ _) h = absurd (ground arith)
    go (is_crash _ _ _) h = absurd (ground arith)
    go (is_charged call tier_rate e fresh on rich t) h = record {
      call = call;
      tier_rate = tier_rate;
      is_found = e;
      tier = t;
      effect =
          charged_db-Charged call_id minute call (rate_of table call.model_user_id db tier_rate) db
            e on rich;
    }

-- After `chargeMinute` has charged a minute of a call, charging the same minute again, at any time
-- and with any tier table, answers that it was charged already and changes nothing.
pub charge_minute-once :
    (table later_table : List TierRow) (call_id minute now later : ℕ) (db : Db)
    → (charge_minute table call_id minute now db).0 ≡ ok charged
    → charge_minute later_table call_id minute later (charge_minute table call_id minute now db).1
      ≡ (ok already_charged, (charge_minute table call_id minute now db).1)
unfolding charge_minute
charge_minute-once table later_table call_id minute now later db =
    go (charge_minute-outcome table call_id minute now db)
  where
    go :
        {r : Result ChargeResult × Db}
        → ChargeOutcome table call_id minute now db r
        → r.0 ≡ ok charged
        → charge_minute later_table call_id minute later r.1 ≡ (ok already_charged, r.1)
    go (is_missing _) h = absurd (ground arith)
    go (is_replay _) h = absurd (ground arith)
    go (is_inactive _ _ _) h = absurd (ground arith)
    go (is_broke _ _ _ _) h = absurd (ground arith)
    go (is_crash _ _ _) h = absurd (ground arith)
    go (is_charged call tier_rate e fresh on rich t) h = ground (
      arith,
      find-bill_one call_id db.calls call e,
      group_eq_refl (Group.call_minute call_id minute),
    )
