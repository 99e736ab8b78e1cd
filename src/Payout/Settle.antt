-- ===== src/Payout/Settle.antt =====
-- What `settle` (src/payout/payout.processor.ts) does.
use mathlib.Core.Path.{subst}
use samy.Prelude.{
  ℕ, ◌≡◌, Bool, true, false, List, ◌++◌, arith, any, Bool-cases, inl, inr, update_many,
}
use samy.Prelude.Int.{pos, int_laws}
use samy.Database.Accounts.{Group}
use samy.Database.Rows.{LedgerEntry, Payout}
use samy.Database.{Db, Result, ok, err, record_not_found, unique_violation}
use samy.Database.Queries.{payout_has_id}
use samy.Ledger.{rows_from, total_from, clashes}
use samy.Ledger.Posting.{post_transaction_lem}
use samy.Payout.{reversal_entries, mark_paid_out, mark_payout_failed, settle, reverse}

pub reversal_entries-balanced : (p : Payout) → total_from (pos 0) (reversal_entries p) ≡ pos 0
reversal_entries-balanced p = omega int_laws

abbrev pub reversal_rows : Payout → List LedgerEntry
reversal_rows p = rows_from 0 (Group.payout_reversal p.id) (reversal_entries p)

abbrev pub paid_db : Db → Payout → ℕ → Db
paid_db db p now = record db {
  payouts = update_many (payout_has_id p.id) (mark_paid_out now) db.payouts;
}

abbrev pub reversed_db : Db → Payout → ℕ → Db
reversed_db db p now = record db {
  ledger = reversal_rows p ++ db.ledger;
  payouts = update_many (payout_has_id p.id) (mark_payout_failed now) db.payouts;
}

module _ (p : Payout) (sent : Bool) (now : ℕ) (db : Db) where
  -- The outcomes of `settle`: paid, refunded, or an exception that leaves the database as it was.
  pub data SettleOutcome : Result (Unit {0}) × Db → Type 0 where
    is_paid_out :
        sent ≡ true
        → any (payout_has_id p.id) db.payouts ≡ true
        → SettleOutcome (ok tt, paid_db db p now)
    is_clash : clashes (reversal_rows p) db.ledger ≡ true → SettleOutcome (err unique_violation, db)
    is_gone : any (payout_has_id p.id) db.payouts ≡ false → SettleOutcome (err record_not_found, db)
    is_reversed :
        sent ≡ false
        → any (payout_has_id p.id) db.payouts ≡ true
        → clashes (reversal_rows p) db.ledger ≡ false
        → SettleOutcome (ok tt, reversed_db db p now)

  reverse_raises :
      clashes (reversal_rows p) db.ledger ≡ true → reverse p now db ≡ (err unique_violation, db)
  unfolding reverse
  reverse_raises clash = ground (
    arith,
    post_transaction_lem (Group.payout_reversal p.id) (reversal_entries p) db,
    reversal_entries-balanced p,
  )

  reverse_gone :
      clashes (reversal_rows p) db.ledger ≡ false
      → any (payout_has_id p.id) db.payouts ≡ false
      → reverse p now db ≡ (err record_not_found, db)
  unfolding reverse
  reverse_gone fresh gone = ground (
    arith,
    post_transaction_lem (Group.payout_reversal p.id) (reversal_entries p) db,
    reversal_entries-balanced p,
  )

  reverse_done :
      clashes (reversal_rows p) db.ledger ≡ false
      → any (payout_has_id p.id) db.payouts ≡ true
      → reverse p now db ≡ (ok tt, reversed_db db p now)
  unfolding reverse
  reverse_done fresh known = ground (
    arith,
    post_transaction_lem (Group.payout_reversal p.id) (reversal_entries p) db,
    reversal_entries-balanced p,
  )

  pub settle_refunds :
      sent ≡ false
      → clashes (reversal_rows p) db.ledger ≡ false
      → any (payout_has_id p.id) db.payouts ≡ true
      → settle p sent now db ≡ (ok tt, reversed_db db p now)
  unfolding settle
  settle_refunds unsent fresh known = ground (arith, reverse_done fresh known)

  -- Every result of `settle`: PAID where `sendPix` returned and the row exists, refunded and FAILED
  -- where it did not, or an exception (the reversal is posted already, or the row is gone) that
  -- leaves the database as it was.
  pub settle-outcome : SettleOutcome (settle p sent now db)
  unfolding settle
  settle-outcome = elim (Bool-cases (any (payout_has_id p.id) db.payouts)) [
    | inr gone ↦ elim (Bool-cases (clashes (reversal_rows p) db.ledger)) [
      | inl clash ↦ subst SettleOutcome (ground (arith, reverse_raises clash)) (is_clash clash)
      | inr fresh ↦ subst SettleOutcome (ground (arith, reverse_gone fresh gone)) (is_gone gone)
    ]
    | inl known ↦ elim (Bool-cases sent) [
      | inl paid ↦ subst SettleOutcome (ground arith) (is_paid_out paid known)
      | inr unsent ↦ elim (Bool-cases (clashes (reversal_rows p) db.ledger)) [
        | inl clash ↦ subst SettleOutcome (ground (arith, reverse_raises clash)) (is_clash clash)
        | inr fresh ↦
            subst SettleOutcome (ground (arith, reverse_done fresh known))
              (is_reversed unsent known fresh)
      ]
    ]
  ]
