-- ===== src/System/Metered/Services.antt =====
-- The sales and the money services (src/billing, src/wallet, src/payout) keep the bills paid.
use mathlib.Core.Path.{subst}
use samy.Prelude.{
  ℕ, refl, sym, ◌==◌, Bool, List, [], ◌∷◌, String, count, Bool-cases, inl, inr, ◌-◌, find_many,
}
use samy.Prelude.Int.{ℤ}
use samy.Database.Accounts.{Account, Group}
use samy.Database.Rows.{Payout, is_active, EndReason, is_pending_payout}
use samy.Database.{Db, Action, Result, ok, err, ◌>>◌}
use samy.Ranking.{TierRow}
use samy.Billing.{ChargeResult, charge_minute, send_gift}
use samy.Billing.Charge.{
  ChargeOutcome, is_missing, is_replay, is_inactive, is_broke, is_crash, is_charged,
  charge_minute-outcome, rate_of,
}
use samy.Billing.GiftSale.{GiftOutcome, is_refused, is_sent, gift_entries, send_gift-outcome}
use samy.Wallet.{ConfirmResult, confirm_recharge, recharge_entries}
use samy.Wallet.Confirm.{
  ConfirmOutcome, is_unknown, was_paid, is_mismatch, is_unclaimed, is_clash, is_credited,
  confirm_recharge-outcome,
}
use samy.Payout.{
  new_payout, payout_entries, reversal_entries, SendPix, settle, request_payout, process_each,
  process_pending, recover_each, recover_stuck, claims_pending, claims_stuck, mark_processing,
  renew_stamp, is_stuck, claim_and_settle,
}
use samy.Payout.Request
use samy.Payout.Request.{RequestOutcome, request_payout-outcome}
use samy.Payout.Settle
use samy.Payout.Settle.{SettleOutcome, settle-outcome}
use samy.Calls.Bills.{bills, bills-end_if}
use samy.Calls.Lifecycle.{UniqueIds}
use samy.System.Metered.Steps.{Metered, charged_db-Metered}
use samy.System.Metered.{IsMetered, IsMetered-posted}

pub charge_minute-Metered :
    (table : List TierRow) (call_id minute now : ℕ) (db : Db)
    → UniqueIds db.calls
    → Metered db
    → Metered (charge_minute table call_id minute now db).1
charge_minute-Metered table call_id minute now db u k =
    go (charge_minute-outcome table call_id minute now db)
  where
    go : {r : Result ChargeResult × Db} → ChargeOutcome table call_id minute now db r → Metered r.1
    go (is_missing e) = k
    go (is_replay e) = k
    go (is_inactive c e off) = k
    go (is_broke c e on broke) =
        subst (λ bs. IsMetered db.ledger bs)
          (sym (bills-end_if is_active EndReason.no_credits call_id now db.calls)) k
    go (is_crash c e n) = k
    go (is_charged c tier_rate e fresh on rich r) =
        charged_db-Metered call_id minute c (rate_of table c.model_user_id db tier_rate) db u e k

pub send_gift-Metered :
    (table : List TierRow) (gift_id client_id model_id gift_type_id : ℕ) (db : Db)
    → Metered db
    → Metered (send_gift table gift_id client_id model_id gift_type_id db).1
send_gift-Metered table gift_id client_id model_id gift_type_id db k =
    go (send_gift-outcome table gift_id client_id model_id gift_type_id db)
  where
    go : {r : _ × Db} → GiftOutcome table gift_id client_id model_id gift_type_id db r → Metered r.1
    go (is_refused e) = k
    go (is_sent g m tier_rate e on u role rich r fresh) =
        IsMetered-posted 0 (Group.gift gift_id)
          (gift_entries client_id model_id g.price_credits (rate_of table model_id db tier_rate))
          db.ledger (bills db.calls) (λ id. refl) k

pub confirm_recharge-Metered :
    (psp_charge_id : String) (event_amount : ℤ) (now : ℕ) (db : Db)
    → Metered db
    → Metered (confirm_recharge psp_charge_id event_amount now db).1
confirm_recharge-Metered psp_charge_id event_amount now db k =
    go (confirm_recharge-outcome psp_charge_id event_amount now db)
  where
    go :
        {r : Result ConfirmResult × Db}
        → ConfirmOutcome psp_charge_id event_amount now db r
        → Metered r.1
    go (is_unknown e) = k
    go (was_paid r e p) = k
    go (is_mismatch r e d) = k
    go (is_unclaimed r e p c) = k
    go (is_clash r c) = k
    go (is_credited r e p same c fresh) =
        IsMetered-posted 0 (Group.recharge r.id) (recharge_entries r) db.ledger (bills db.calls)
          (λ id. refl) k

pub request_payout-Metered :
    (min_payout : ℤ) (id : ℕ) (account : Account) (amount : ℤ) (pix_key : String) (now : ℕ)
    (db : Db)
    → Metered db
    → Metered (request_payout min_payout id account amount pix_key now db).1
request_payout-Metered min_payout id account amount pix_key now db k =
    go (request_payout-outcome min_payout id account amount pix_key now db)
  where
    go :
        {r : Result Payout × Db}
        → RequestOutcome min_payout id account amount pix_key now db r
        → Metered r.1
    go (Request.is_unapproved e) = k
    go (Request.is_below e) = k
    go (Request.is_short e) = k
    go (Request.is_taken e) = k
    go (Request.is_clash e) = k
    go (Request.is_accepted approved above enough free fresh) =
        IsMetered-posted 0 (Group.payout id)
          (payout_entries (new_payout id account amount pix_key now)) db.ledger (bills db.calls)
          (λ i. refl) k

pub settle-Metered :
    (p : Payout) (sent : Bool) (now : ℕ) (db : Db) → Metered db → Metered (settle p sent now db).1
settle-Metered p sent now db k = go (settle-outcome p sent now db)
  where
    go : {r : Result (Unit {0}) × Db} → SettleOutcome p sent now db r → Metered r.1
    go (Settle.is_paid_out e n) = k
    go (Settle.is_clash e) = k
    go (Settle.is_gone e) = k
    go (Settle.is_reversed e n fresh) =
        IsMetered-posted 0 (Group.payout_reversal p.id) (reversal_entries p) db.ledger
          (bills db.calls) (λ id. refl) k

claim_and_settle-Metered :
    (guard : Payout → Bool) (write : Payout → Payout) (send_pix : SendPix) (now : ℕ) (p : Payout)
    (db : Db)
    → Metered db
    → Metered (claim_and_settle guard write send_pix now p db).1
unfolding claim_and_settle
claim_and_settle-Metered guard write send_pix now p db k =
    elim (Bool-cases (count guard db.payouts == 1)) [
      | inl won ↦ rw won (settle-Metered p (send_pix p.pix_key p.amount p.id) now _ k)
      | inr lost ↦ rw lost k
    ]

pub >>-Metered :
    (m k : Action (Unit {0})) (db : Db)
    → Metered (m db).1
    → ((d : Db) → Metered d → Metered (k d).1)
    → Metered ((m >> k) db).1
>>-Metered m k db h next = ended (m db) h
  where
    ended : (r : Result (Unit {0}) × Db) → Metered r.1 → Metered (((λ _. r) >> k) db).1
    ended (ok a, d) h = next d h
    ended (err e, d) h = h

process_each-Metered :
    (send_pix : SendPix) (now : ℕ) (ps : List Payout) (db : Db)
    → Metered db
    → Metered (process_each send_pix now ps db).1
unfolding process_each
process_each-Metered send_pix now [] db k = k
process_each-Metered send_pix now (p ∷ ps) db k =
    >>-Metered (claim_and_settle (claims_pending p.id) (mark_processing now) send_pix now p)
      (process_each send_pix now ps) db (claim_and_settle-Metered _ _ send_pix now p db k)
      (process_each-Metered send_pix now ps)

recover_each-Metered :
    (send_pix : SendPix) (cutoff now : ℕ) (ps : List Payout) (db : Db)
    → Metered db
    → Metered (recover_each send_pix cutoff now ps db).1
unfolding recover_each
recover_each-Metered send_pix cutoff now [] db k = k
recover_each-Metered send_pix cutoff now (p ∷ ps) db k =
    >>-Metered (claim_and_settle (claims_stuck cutoff p.id) (renew_stamp now) send_pix now p)
      (recover_each send_pix cutoff now ps) db (claim_and_settle-Metered _ _ send_pix now p db k)
      (recover_each-Metered send_pix cutoff now ps)

pub process_pending-Metered :
    (send_pix : SendPix) (now : ℕ) (db : Db)
    → Metered db
    → Metered (process_pending send_pix now db).1
unfolding process_pending
process_pending-Metered send_pix now db k =
    process_each-Metered send_pix now (find_many (λ p. is_pending_payout p.status) db.payouts) db k

pub recover_stuck-Metered :
    (send_pix : SendPix) (stuck_ms now : ℕ) (db : Db)
    → Metered db
    → Metered (recover_stuck send_pix stuck_ms now db).1
unfolding recover_stuck
recover_stuck-Metered send_pix stuck_ms now db k =
    recover_each-Metered send_pix (now - stuck_ms) now
      (find_many (is_stuck (now - stuck_ms)) db.payouts) db k
