-- ===== src/Taximeter/Ends.antt =====
-- The taximeter (src/scheduler/taximeter.service.ts) ends every call that costs something: there is
-- a time from which on a tick leaves it ENDED.
use samy.Prelude.{
  true, ℕ, zero, suc, ◌+◌, ◌*◌, ◌≡◌, ◌<◌, ◌≤◌, refl, some, List, ◌∷◌, arith, Bool-cases, inl, inr,
}
use samy.Prelude.Int.{ℤ, pos, pos_part, ◌+ℤ◌, ◌-ℤ◌, ◌≤ℤ◌, ◌<ℤ◌, int_laws, ltb_ℤ}
use samy.Database.Accounts.{Account}
use samy.Database.Rows.{Call, CallStatus, EndReason, is_active}
use samy.Database.{Db}
use samy.Database.Queries.{find_call}
use samy.Ledger.{balance}
use samy.Ranking.{TierRow}
use samy.Taximeter.{charge_call, due_minute}
use samy.Taximeter.CatchUp.{IsUncharged, charge_call-runs_out, times}

-- How many units of a price an amount pays for, below a bound.
affordable :
    (n : ℕ) (b p : ℤ)
    → pos 0 ≤ℤ b
    → b <ℤ times n p
    → (k : ℕ) × (k < n) × (times k p ≤ℤ b) × (b <ℤ times (suc k) p)
affordable zero b p h lt = absurd (omega arith)
affordable (suc n) b p h lt = elim (Bool-cases (ltb_ℤ b (times n p))) [
  | inl less ↦
      let (k, below, le, lt') = affordable n b p h (ground arith) in (k, omega arith, le, lt')
  | inr enough ↦ (n, omega arith, ground arith, lt)
]

times-grows : (n : ℕ) (p : ℤ) → pos 1 ≤ℤ p → pos n ≤ℤ times n p
times-grows zero p h = omega arith
times-grows (suc n) p h = omega (int_laws, times-grows n p h)

rest_covers : (left money spent : ℤ) → left ≡ money -ℤ spent → spent ≤ℤ money → pos 0 ≤ℤ left
rest_covers left money spent e h = rw e (omega (int_laws, h))

rest_short : (left money spent p : ℤ) → left ≡ money -ℤ spent → money <ℤ p +ℤ spent → left <ℤ p
rest_short left money spent p e h = rw e (omega (int_laws, h))

due_after : (now started n : ℕ) → started + 60000 * n ≤ now → n < due_minute now started
due_after now started n h = ground arith

-- The call read by the tick is the one found under its id, ACTIVE and started; no minute after its
-- billed ones is in the ledger, it costs at least a cent a minute, a tier table with a row is
-- loaded and the client's balance is not negative. From as many minutes after the start on as are
-- billed and as the client has cents, the round for the call leaves it ENDED with reason
-- NO_CREDITS at `now`, and the client with zero or more and less than the price of a minute.
pub charge_call-ends :
    (first : TierRow) (rest : List TierRow) (now started_at : ℕ) (call : Call) (db : Db)
    → find_call call.id db ≡ some call
    → is_active call.status ≡ true
    → call.started_at ≡ some started_at
    → IsUncharged call.id (suc call.billed_minutes) db.ledger
    → pos 1 ≤ℤ call.price_per_minute_snapshot
    → pos 0 ≤ℤ balance (Account.client call.client_user_id) db.ledger
    → started_at
        + 60000
          * (call.billed_minutes
              + pos_part (balance (Account.client call.client_user_id) db.ledger))
      ≤ now
    → let after = (charge_call (first ∷ rest) now call db).1 in
      let left = balance (Account.client call.client_user_id) after.ledger in
      (final : Call) × (find_call call.id after ≡ some final)
      × (final.status ≡ CallStatus.ended)
      × (final.end_reason ≡ some EndReason.no_credits)
      × (final.ended_at ≡ some now)
      × (pos 0 ≤ℤ left)
      × (left <ℤ call.price_per_minute_snapshot)
charge_call-ends first rest now started_at call db found on started fresh price has late =
    let money = balance (Account.client call.client_user_id) db.ledger in
    let (k, most, pays, short) =
      affordable (suc (pos_part money)) money call.price_per_minute_snapshot has (
        omega
          (int_laws, times-grows (suc (pos_part money)) call.price_per_minute_snapshot price)) in
    let due = due_after now started_at (call.billed_minutes + pos_part money) late in
    let (final, paid) =
      charge_call-runs_out first rest now started_at k call db found on started fresh
        (omega (arith, price)) (omega (arith, most, due)) pays short in
    (_, final, refl, refl, refl, rest_covers _ _ _ paid pays, rest_short _ _ _ _ paid short)
