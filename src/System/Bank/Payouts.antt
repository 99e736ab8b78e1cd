-- ===== src/System/Bank/Payouts.antt =====
-- The payout loops of src/payout/payout.service.ts as runs of the bank.
use samy.Prelude.{
  ℕ, ◌==◌, Bool, List, [], ◌∷◌, All, All-find_many, All-weaken, Bool-cases, inl, inr, count, ◌-◌,
}
use samy.Database.Accounts.{Group}
use samy.Database.Rows.{is_pending_payout, EntryType, Payout}
use samy.Database.{Db, Action, Result, ok, err, ◌>>◌}
use samy.Payout.{
  SendPix, settle, process_each, process_pending, recover_each, recover_stuck, claims_pending,
  claims_stuck, mark_processing, renew_stamp, is_stuck, claim_and_settle,
}
use samy.Payout.Settle
use samy.Payout.Settle.{SettleOutcome, settle-outcome}
use samy.System.Sound.{IsSound, IsPayable}
use samy.System.Money.{claim_and_settle-IsSound}
use samy.System.Bank.{BankRun-append, IsDeposit, IsRefund, Moved-BankRun, Moved-weaken, Movement}
use samy.System.Bank.Refines.{Moves, Refines, idle_at, still}
use samy.System.Bank.Postings.{IsDeposit-posted}

pub settle-Refines :
    (p : Payout) (sent : Bool) (now : ℕ) (db : Db)
    → IsPayable p
    → Moves (IsDeposit p.account p.amount) db (settle p sent now db).1
settle-Refines p sent now db (amount, inside) = go (settle-outcome p sent now db)
  where
    go :
        {r : Result (Unit {0}) × Db}
        → SettleOutcome p sent now db r
        → Moves (IsDeposit p.account p.amount) db r.1
    go (Settle.is_paid_out e k) = still db
    go (Settle.is_clash e) = still db
    go (Settle.is_gone e) = still db
    go (Settle.is_reversed e k fresh) =
        IsDeposit-posted p.account EntryType.saque_estorno EntryType.saque_estorno_offset p.amount
          (Group.payout_reversal p.id) db.ledger inside amount

claim_and_settle-Refines :
    (guard : Payout → Bool) (write : Payout → Payout) (send_pix : SendPix) (now : ℕ) (p : Payout)
    (db : Db)
    → IsPayable p
    → Moves (IsDeposit p.account p.amount) db (claim_and_settle guard write send_pix now p db).1
unfolding claim_and_settle
claim_and_settle-Refines guard write send_pix now p db h =
    elim (Bool-cases (count guard db.payouts == 1)) [
      | inl won ↦ rw won (settle-Refines p (send_pix p.pix_key p.amount p.id) now _ h)
      | inr lost ↦ rw lost (still db)
    ]

-- A loop of rounds that keep the invariant and refine the bank; a failing round ends it.
pub >>-Refines :
    {P : Movement → Type 0} (m k : Action (Unit {0})) (db : Db)
    → IsSound (m db).1
    → Refines P db (m db).1
    → ((d : Db) → IsSound d → Refines P d (k d).1)
    → Refines P db ((m >> k) db).1
>>-Refines {P} m k db s first next = ended (m db) s first
  where
    ended :
        (r : Result (Unit {0}) × Db)
        → IsSound r.1
        → Refines P db r.1
        → Refines P db (((λ _. r) >> k) db).1
    ended (ok a, d) s first = BankRun-append first (next d s)
    ended (err e, d) s first = first

-- What holds of a payout of the list and of its refund.
abbrev IsRefundable : (Movement → Type 0) → Payout → Type 0
IsRefundable P p = IsPayable p × ((m : Movement) → IsDeposit p.account p.amount m → P m)

process_each-Refines :
    (P : Movement → Type 0) (send_pix : SendPix) (now : ℕ) (ps : List Payout) (db : Db)
    → All (IsRefundable P) ps
    → IsSound db
    → Refines P db (process_each send_pix now ps db).1
unfolding process_each
process_each-Refines P send_pix now [] db h s = idle_at db
process_each-Refines P send_pix now (p ∷ ps) db h s =
    >>-Refines (claim_and_settle (claims_pending p.id) (mark_processing now) send_pix now p)
      (process_each send_pix now ps) db
      (claim_and_settle-IsSound _ _ send_pix now p db (λ q hq. hq) h.0.0 s)
      (Moved-BankRun (Moved-weaken h.0.1 (claim_and_settle-Refines _ _ send_pix now p db h.0.0)))
      (λ d sd. process_each-Refines P send_pix now ps d h.1 sd)

recover_each-Refines :
    (P : Movement → Type 0) (send_pix : SendPix) (cutoff now : ℕ) (ps : List Payout) (db : Db)
    → All (IsRefundable P) ps
    → IsSound db
    → Refines P db (recover_each send_pix cutoff now ps db).1
unfolding recover_each
recover_each-Refines P send_pix cutoff now [] db h s = idle_at db
recover_each-Refines P send_pix cutoff now (p ∷ ps) db h s =
    >>-Refines (claim_and_settle (claims_stuck cutoff p.id) (renew_stamp now) send_pix now p)
      (recover_each send_pix cutoff now ps) db
      (claim_and_settle-IsSound _ _ send_pix now p db (λ q hq. hq) h.0.0 s)
      (Moved-BankRun (Moved-weaken h.0.1 (claim_and_settle-Refines _ _ send_pix now p db h.0.0)))
      (λ d sd. recover_each-Refines P send_pix cutoff now ps d h.1 sd)

-- The refund of a payout of a list is the refund of one of them.
refundable : (ps : List Payout) → All IsPayable ps → All (IsRefundable (IsRefund ps)) ps
refundable [] h = tt
refundable (p ∷ ps) h = (
  (h.0, λ m kind. inl kind),
  All-weaken (IsRefundable (IsRefund ps)) (IsRefundable (IsRefund (p ∷ ps))) ps
      (λ q hq. (hq.0, λ m kind. inr (hq.1 m kind))) (refundable ps h.1),
)

pub process_pending-Refines :
    (send_pix : SendPix) (now : ℕ) (db : Db)
    → IsSound db
    → Refines (IsRefund db.payouts) db (process_pending send_pix now db).1
unfolding process_pending
process_pending-Refines send_pix now db s =
    process_each-Refines (IsRefund db.payouts) send_pix now _ db
      (All-find_many (λ p. is_pending_payout p.status) (IsRefundable (IsRefund db.payouts))
        db.payouts (refundable db.payouts s.payouts))
      s

pub recover_stuck-Refines :
    (send_pix : SendPix) (stuck_ms now : ℕ) (db : Db)
    → IsSound db
    → Refines (IsRefund db.payouts) db (recover_stuck send_pix stuck_ms now db).1
unfolding recover_stuck
recover_stuck-Refines send_pix stuck_ms now db s =
    recover_each-Refines (IsRefund db.payouts) send_pix (now - stuck_ms) now _ db
      (All-find_many (is_stuck (now - stuck_ms)) (IsRefundable (IsRefund db.payouts)) db.payouts
        (refundable db.payouts s.payouts))
      s
