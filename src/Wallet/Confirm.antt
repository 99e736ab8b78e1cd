-- ===== src/Wallet/Confirm.antt =====
-- What `confirmRecharge` and `expireStaleRecharges` (src/wallet/wallet.service.ts) do.
use mathlib.Core.Path.{subst}
use samy.Prelude.{
  ℕ, ◌≡◌, true, false, none, some, List, ◌++◌, String, ◌==◌, arith, count, Bool-cases, Option-cases,
  inl, inr, find_first, update_many,
}
use samy.Prelude.Int.{ℤ, pos, eqb_ℤ, int_laws}
use samy.Database.Accounts.{Group}
use samy.Database.Rows.{LedgerEntry, Recharge, is_paid}
use samy.Database.{Db, Result, ok, err, unique_violation, transaction}
use samy.Ledger.{rows_from, total_from, clashes}
use samy.Ledger.Posting.{post_transaction_lem}
use samy.Wallet.{
  ConfirmResult, credited, unknown, already, amount_mismatch, has_charge_id, is_claimable,
  mark_paid, recharge_entries, claim, confirm_recharge,
}

abbrev pub recharge_rows : Recharge → List LedgerEntry
recharge_rows r = rows_from 0 (Group.recharge r.id) (recharge_entries r)

abbrev pub credited_db : Db → Recharge → ℕ → Db
credited_db db r now = record db {
  ledger = recharge_rows r ++ db.ledger;
  recharges = update_many (is_claimable r.id) (mark_paid now) db.recharges;
}

-- The outcomes of `confirmRecharge`, each with what holds where it occurs.
pub data ConfirmOutcome (psp_charge_id : String) (event_amount : ℤ) (now : ℕ) (db : Db)
    : Result ConfirmResult × Db → Type 0 where
  is_unknown :
      find_first (has_charge_id psp_charge_id) db.recharges ≡ none
      → ConfirmOutcome psp_charge_id event_amount now db (ok unknown, db)
  was_paid :
      (r : Recharge)
      → find_first (has_charge_id psp_charge_id) db.recharges ≡ some r
      → is_paid r.status ≡ true
      → ConfirmOutcome psp_charge_id event_amount now db (ok already, db)
  is_mismatch :
      (r : Recharge)
      → find_first (has_charge_id psp_charge_id) db.recharges ≡ some r
      → eqb_ℤ event_amount r.amount ≡ false
      → ConfirmOutcome psp_charge_id event_amount now db (ok amount_mismatch, db)
  is_unclaimed :
      (r : Recharge)
      → find_first (has_charge_id psp_charge_id) db.recharges ≡ some r
      → is_paid r.status ≡ false
      → (count (is_claimable r.id) db.recharges == 1) ≡ false
      → ConfirmOutcome psp_charge_id event_amount now db (
        ok already,
        record db { recharges = update_many (is_claimable r.id) (mark_paid now) db.recharges },
      )
  is_clash :
      (r : Recharge)
      → clashes (recharge_rows r) db.ledger ≡ true
      → ConfirmOutcome psp_charge_id event_amount now db (err unique_violation, db)
  is_credited :
      (r : Recharge)
      → find_first (has_charge_id psp_charge_id) db.recharges ≡ some r
      → is_paid r.status ≡ false
      → eqb_ℤ event_amount r.amount ≡ true
      → (count (is_claimable r.id) db.recharges == 1) ≡ true
      → clashes (recharge_rows r) db.ledger ≡ false
      → ConfirmOutcome psp_charge_id event_amount now db (ok credited, credited_db db r now)

pub recharge_entries-balanced : (r : Recharge) → total_from (pos 0) (recharge_entries r) ≡ pos 0
recharge_entries-balanced r = omega int_laws

claim-outcome :
    (psp_charge_id : String) (event_amount : ℤ) (now : ℕ) (db : Db) (r : Recharge)
    → find_first (has_charge_id psp_charge_id) db.recharges ≡ some r
    → is_paid r.status ≡ false
    → eqb_ℤ event_amount r.amount ≡ true
    → ConfirmOutcome psp_charge_id event_amount now db (transaction (claim r now) db)
unfolding claim
claim-outcome psp_charge_id event_amount now db r found unpaid same =
    elim (Bool-cases (count (is_claimable r.id) db.recharges == 1)) [
      | inr lost ↦ subst Outcome (ground arith) (is_unclaimed r found unpaid lost)
      | inl won ↦ elim (Bool-cases (clashes (recharge_rows r) db.ledger)) [
        | inl clash ↦
            subst Outcome
              (ground (
                arith,
                post_transaction_lem (Group.recharge r.id) (recharge_entries r) claimed,
                recharge_entries-balanced r,
              ))
              (is_clash r clash)
        | inr fresh ↦
            subst Outcome
              (ground (
                arith,
                post_transaction_lem (Group.recharge r.id) (recharge_entries r) claimed,
                recharge_entries-balanced r,
              ))
              (is_credited r found unpaid same won fresh)
      ]
    ]
  where
    Outcome : Result ConfirmResult × Db → Type 0
    Outcome = ConfirmOutcome psp_charge_id event_amount now db

    claimed : Db
    claimed = record db { recharges = update_many (is_claimable r.id) (mark_paid now) db.recharges }

-- Every result of `confirmRecharge`, with the state that it leaves: an unknown charge id, a
-- recharge that was paid, an amount that differs, a claim that does not change exactly one row, a
-- posting whose reference is in use, or a credit.
pub confirm_recharge-outcome :
    (psp_charge_id : String) (event_amount : ℤ) (now : ℕ) (db : Db)
    → ConfirmOutcome psp_charge_id event_amount now db
        (confirm_recharge psp_charge_id event_amount now db)
unfolding confirm_recharge
confirm_recharge-outcome psp_charge_id event_amount now db =
    elim (Option-cases (find_first (has_charge_id psp_charge_id) db.recharges)) [
      | inl e ↦ subst Outcome (ground arith) (is_unknown e)
      | inr (r, e) ↦ elim (Bool-cases (is_paid r.status)) [
        | inl paid ↦ subst Outcome (ground arith) (was_paid r e paid)
        | inr unpaid ↦ elim (Bool-cases (eqb_ℤ event_amount r.amount)) [
          | inr differ ↦ subst Outcome (ground arith) (is_mismatch r e differ)
          | inl same ↦
              subst Outcome (ground arith)
                (claim-outcome psp_charge_id event_amount now db r e unpaid same)
        ]
      ]
    ]
  where
    Outcome : Result ConfirmResult × Db → Type 0
    Outcome = ConfirmOutcome psp_charge_id event_amount now db
