-- ===== src/Payout/Claims.antt =====
-- The claims of src/payout/payout.processor.ts: a payout is settled by one worker.
use samy.Prelude.{
  ℕ, ◌≡◌, refl, Bool, false, List, [], ◌∷◌, arith, any, count, update_many, update_many-none,
  Bool-cases, inl, inr, ◌==◌,
}
use samy.Database.Rows.{Payout}
use samy.Database.{Db, Result, ok}
use samy.Database.Queries.{payout_has_id}
use samy.Payout.{
  SendPix, claim_and_settle, claims_pending, mark_processing, mark_paid_out, mark_payout_failed,
  settle,
}
use samy.Payout.Settle.{SettleOutcome, is_paid_out, is_clash, is_gone, is_reversed, settle-outcome}

abbrev IsTaken : ℕ → Db → Type 0
IsTaken id db = any (claims_pending id) db.payouts ≡ false

processing-IsTaken :
    (id now : ℕ) (ps : List Payout)
    → any (claims_pending id) (update_many (claims_pending id) (mark_processing now) ps) ≡ false
processing-IsTaken id now [] = refl
processing-IsTaken id now (p ∷ ps) = ground (arith, processing-IsTaken id now ps)

paid-IsTaken :
    (id now : ℕ) (ps : List Payout)
    → any (claims_pending id) (update_many (payout_has_id id) (mark_paid_out now) ps) ≡ false
paid-IsTaken id now [] = refl
paid-IsTaken id now (p ∷ ps) = ground (arith, paid-IsTaken id now ps)

failed-IsTaken :
    (id now : ℕ) (ps : List Payout)
    → any (claims_pending id) (update_many (payout_has_id id) (mark_payout_failed now) ps) ≡ false
failed-IsTaken id now [] = refl
failed-IsTaken id now (p ∷ ps) = ground (arith, failed-IsTaken id now ps)

settle-IsTaken :
    (p : Payout) (sent : Bool) (now : ℕ) (db : Db)
    → IsTaken p.id db
    → IsTaken p.id (settle p sent now db).1
settle-IsTaken p sent now db h = go (settle-outcome p sent now db)
  where
    go : {r : Result (Unit {0}) × Db} → SettleOutcome p sent now db r → IsTaken p.id r.1
    go (is_paid_out _ _) = paid-IsTaken p.id now db.payouts
    go (is_clash _) = h
    go (is_gone _) = h
    go (is_reversed _ _ _) = failed-IsTaken p.id now db.payouts

count-IsTaken :
    (id : ℕ) (ps : List Payout)
    → any (claims_pending id) ps ≡ false
    → count (claims_pending id) ps ≡ 0
count-IsTaken id [] h = refl
count-IsTaken id (p ∷ ps) h = ground (arith, count-IsTaken id ps)

-- The database after the claim's update, whether it won or not.
abbrev claimed_db : ℕ → Payout → Db → Db
claimed_db now p db = record db {
  payouts = update_many (claims_pending p.id) (mark_processing now) db.payouts;
}

claim_and_settle-IsTaken :
    (send_pix : SendPix) (now : ℕ) (p : Payout) (db : Db)
    → IsTaken p.id
        (claim_and_settle (claims_pending p.id) (mark_processing now) send_pix now p db).1
unfolding claim_and_settle
claim_and_settle-IsTaken send_pix now p db =
    elim (Bool-cases (count (claims_pending p.id) db.payouts == 1)) [
      | inl won ↦ rw won (
          settle-IsTaken p (send_pix p.pix_key p.amount p.id) now (claimed_db now p db)
            (processing-IsTaken p.id now db.payouts))
      | inr lost ↦ rw lost (processing-IsTaken p.id now db.payouts)
    ]

claim_and_settle-idle :
    (send_pix : SendPix) (now : ℕ) (p : Payout) (db : Db)
    → IsTaken p.id db
    → claim_and_settle (claims_pending p.id) (mark_processing now) send_pix now p db ≡ (ok tt, db)
unfolding claim_and_settle
claim_and_settle-idle send_pix now p db h = ground (
  arith,
  count-IsTaken p.id db.payouts h,
  update_many-none (claims_pending p.id) (mark_processing now) db.payouts h,
)

-- Two workers of `processPending` that have both read a payout: after the first has been through
-- its round for it (whatever the payment provider and the database answered), the second one's
-- claim finds no row, and its round sends nothing and changes nothing.
pub claim_and_settle-once :
    (send_pix send_pix' : SendPix) (now later : ℕ) (p : Payout) (db : Db)
    → claim_and_settle
        (claims_pending p.id)
        (mark_processing later)
        send_pix'
        later
        p
        (claim_and_settle (claims_pending p.id) (mark_processing now) send_pix now p db).1
      ≡ (ok tt, (claim_and_settle (claims_pending p.id) (mark_processing now) send_pix now p db).1)
claim_and_settle-once send_pix send_pix' now later p db =
    claim_and_settle-idle send_pix' later p
      (claim_and_settle (claims_pending p.id) (mark_processing now) send_pix now p db).1
      (claim_and_settle-IsTaken send_pix now p db)
