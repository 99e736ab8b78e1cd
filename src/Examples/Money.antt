-- ===== src/Examples/Money.antt =====
-- Witnesses for the ledger, the recharges and the payouts.
use samy.Prelude.{ℕ, ◌≡◌, refl, true, false, some, Option, [], ◌∷◌, find_first}
use samy.Prelude.Int.{ℤ, pos, negsuc, neg, ◌+ℤ◌}
use samy.Database.Accounts.{Account, Group}
use samy.Database.Rows.{EntryType, Recharge, RechargeStatus}
use samy.Database.{Db, ok}
use samy.Database.Queries.{payout_has_id}
use samy.Ledger.{balance, get_balance, post_transaction, post_own_transaction}
use samy.Ledger.Posting.{post_own_transaction-replay}
use samy.Wallet.{PspCharge, already, credited, confirm_recharge}
use samy.Wallet.Once.{Credit, confirm_recharge-effect, confirm_recharge-once, confirm_recharge-lost}
use samy.Payout.{
  SendPix, claim_and_settle, claims_pending, mark_payout_failed, mark_processing, request_payout,
  settle,
}
use samy.Payout.Refund.{
  Refunded, Withdrawal, request_payout-effect, request_payout-settle, settle-overwrites,
}
use samy.Payout.Claims.{claim_and_settle-once}
use samy.Examples.{asked_payout, base_db, client_credit, model_credit, open_recharge, paid_payout}

abbrev posted_once : Db
posted_once = (post_own_transaction (Group.recharge 9) client_credit base_db).1

first_posting : (post_own_transaction (Group.recharge 9) client_credit base_db).0 ≡ ok true
unfolding post_own_transaction ◌+ℤ◌
first_posting = refl

post_own_transaction-replay_example :
    post_own_transaction (Group.recharge 9) model_credit posted_once ≡ (ok false, posted_once)
unfolding ◌+ℤ◌
post_own_transaction-replay_example =
    post_own_transaction-replay (Group.recharge 9)
      (record { account = Account.client 1; entry_type = EntryType.recarga; amount = pos 1200 })
      (record { account = Account.model 2; entry_type = EntryType.ganho_min; amount = pos 8000 })
      (record {
        account = Account.external;
        entry_type = EntryType.recarga_offset;
        amount = negsuc 1199;
      }
        ∷ [])
      (record { account = Account.external; entry_type = EntryType.seed; amount = negsuc 7999 }
        ∷ [])
      base_db first_posting refl

abbrev provider : ℕ → ℤ → ℕ → Option PspCharge
provider id amount user_id =
    some (record { psp_charge_id = "charge"; qr_text = "qr"; expires_at = 900 })

first_event : (confirm_recharge "charge-3" (pos 2500) 70 base_db).0 ≡ ok credited
unfolding confirm_recharge post_transaction ◌+ℤ◌ neg
first_event = refl

confirm_recharge-effect_example :
    Credit "charge-3" (pos 2500) base_db (confirm_recharge "charge-3" (pos 2500) 70 base_db).1
confirm_recharge-effect_example =
    confirm_recharge-effect "charge-3" (pos 2500) 70 base_db first_event

confirm_recharge-once_example :
    confirm_recharge "charge-3" (pos 2500) 90 (confirm_recharge "charge-3" (pos 2500) 70 base_db).1
    ≡ (ok already, (confirm_recharge "charge-3" (pos 2500) 70 base_db).1)
confirm_recharge-once_example =
    confirm_recharge-once "charge-3" (pos 2500) 70 90 base_db first_event

abbrev expired_recharge : Recharge
expired_recharge = record open_recharge { status = RechargeStatus.expired }

abbrev expired_db : Db
expired_db = record base_db { recharges = expired_recharge ∷ [] }

confirm_recharge-lost_example :
    confirm_recharge "charge-3" (pos 2500) 70 expired_db ≡ (ok already, expired_db)
confirm_recharge-lost_example =
    confirm_recharge-lost "charge-3" (pos 2500) 70 expired_db expired_recharge refl refl refl

accepted_request :
    (request_payout (pos 5000) 5 (Account.model 2) (pos 6000) "bia@pix" 100 base_db).0
    ≡ ok asked_payout
unfolding request_payout post_transaction get_balance balance ◌+ℤ◌ neg
accepted_request = refl

request_payout-effect_example :
    Withdrawal
      (pos 5000)
      (Account.model 2)
      (pos 6000)
      asked_payout
      base_db
      (request_payout (pos 5000) 5 (Account.model 2) (pos 6000) "bia@pix" 100 base_db).1
request_payout-effect_example =
    request_payout-effect (pos 5000) 5 (Account.model 2) (pos 6000) "bia@pix" 100 base_db
      asked_payout (λ e. cc) accepted_request

request_payout-settle_example :
    ((settle asked_payout false 300
        (request_payout (pos 5000) 5 (Account.model 2) (pos 6000) "bia@pix" 100 base_db).1).0
      ≡ ok tt)
    × Refunded asked_payout base_db
        (settle asked_payout false 300
          (request_payout (pos 5000) 5 (Account.model 2) (pos 6000) "bia@pix" 100 base_db).1).1
request_payout-settle_example =
    request_payout-settle (pos 5000) 5 (Account.model 2) (pos 6000) "bia@pix" 100 300 base_db
      asked_payout refl accepted_request

abbrev settled_db : Db
settled_db = record base_db { payouts = paid_payout ∷ [] }

settle-overwrites_example :
    (find_first (payout_has_id 5) (settle asked_payout false 400 settled_db).1.payouts
      ≡ some (mark_payout_failed 400 paid_payout))
    × (balance (Account.model 2) (settle asked_payout false 400 settled_db).1.ledger
        ≡ balance (Account.model 2) settled_db.ledger +ℤ pos 6000)
settle-overwrites_example =
    settle-overwrites asked_payout 400 settled_db paid_payout (λ e. cc) refl refl refl

abbrev failing : SendPix
failing key amount id = false

abbrev sending : SendPix
sending key amount id = true

abbrev waiting_db : Db
waiting_db = record base_db { payouts = asked_payout ∷ [] }

claim_and_settle-once_example :
    claim_and_settle
      (claims_pending 5)
      (mark_processing 300)
      sending
      300
      asked_payout
      (claim_and_settle
        (claims_pending 5)
        (mark_processing 200)
        failing
        200
        asked_payout
        waiting_db).1
    ≡ (
      ok tt,
      (claim_and_settle
          (claims_pending 5)
          (mark_processing 200)
          failing
          200
          asked_payout
          waiting_db).1,
    )
claim_and_settle-once_example =
    claim_and_settle-once failing sending 200 300 asked_payout waiting_db
