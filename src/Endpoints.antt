-- ===== src/Endpoints.antt =====
-- The controllers that move money: src/wallet/wallet.controller.ts (the webhook of the payment
-- provider), src/wallet/recharge.controller.ts, src/payout/payout.controller.ts and
-- src/kyc-verification/kyc-webhook.controller.ts, and the ticks of src/scheduler. A request is
-- given by what the code reads of it: the bearer token for the guards, whether its signature is valid, and its parsed fields.
pub mod Webhooks
pub mod People
pub mod Talk
pub mod Lists
use text.Mathlib.Text.{◌==◌ as str_eq}
use samy.Prelude.{
  ℕ, Bool, true, false, not, ◌&&◌, ◌||◌, ◌==◌, Option, none, some, List, [], ◌∷◌, String, ltb,
  if◌then◌else◌, find_first, find_many, sort_by, take,
}
use samy.Prelude.Int.{ℤ, pos}
use samy.Database.Accounts.{Account, account_eq}
use samy.Database.Rows.{Payout, Recharge, Role}
use samy.Access.{AuthUser, guarded}
use samy.Database.{
  Db, Action, Error, Result, ok, err, bad_request, not_found, unauthorized, attempt, pure, raise,
  raise_if, query, or_raise, ◌>>=◌, ◌>>◌,
}
use samy.Database.Queries.{recharge_has_id}
use samy.Wallet.{
  ConfirmResult, PspCharge, confirm_recharge, create_recharge, expire_stale_recharges,
}
use samy.Wallet.Amount.{Decimal}
use samy.Payout.{SendPix, grant_dev_earnings, process_pending, recover_stuck, request_payout}
use samy.Verification.{Outcome, apply_result}

-- `PspEvent`: an id is there where the field is a string that is not blank; the amount is there
-- where the field is a string that POSITIVE_DECIMAL matches, in cents.
pub record PspEvent : Type 0 where
  pub event : String
  pub payment_id : Option String
  pub user_id : Option String
  pub amount : Option ℕ

unfoldable pub handle_psp : Bool → PspEvent → ℕ → Action (Unit {0})
handle_psp signed event now = do
  raise_if (not signed) (unauthorized "Invalid signature")
  if not (str_eq event.event "payment.confirmed") then pure tt else (do
    payment_id ← or_raise event.payment_id (bad_request "paymentId is required")
    user_id ← or_raise event.user_id (bad_request "userId is required")
    amount ← or_raise event.amount (bad_request "amount must be a positive decimal")
    raise_if (amount == 0) (bad_request "amount must be a positive decimal")
    confirm_recharge payment_id (pos amount) now
    pure tt)

-- `KycWebhookEvent`: the outcome where it is one of the two, the reference where it is a string
-- that is not empty.
pub record KycEvent : Type 0 where
  pub provider_ref : Option String
  pub outcome : Option Outcome
  pub reason : Option String

unfoldable pub handle_kyc : Bool → KycEvent → ℕ → Action (Unit {0})
handle_kyc signed event now = do
  raise_if (not signed) (unauthorized "Invalid signature")
  elim event.outcome [
    | none ↦ pure tt
    | some outcome ↦ (do
      provider_ref ← or_raise event.provider_ref (bad_request "providerRef is required")
      apply_result provider_ref outcome event.reason now)
  ]

-- `RechargeController.create`, at the decimal that the text is read as.
unfoldable pub create :
    (ℕ → ℤ → ℕ → Option PspCharge)
    → ℤ
    → ℕ
    → Option (Option ℕ)
    → Option Decimal
    → ℕ
    → Action (Unit {0})
create create_charge min_recharge id bearer amount now = do
  user ← guarded (Role.client ∷ []) bearer
  decimal ← or_raise amount (bad_request "amount must be a valid decimal")
  create_recharge create_charge min_recharge id user.id decimal now

unfoldable pub history : Option (Option ℕ) → Action (List Recharge)
history bearer = do
  user ← guarded (Role.client ∷ []) bearer
  query λ db. take 50 (
      sort_by (λ a b. ltb b.created_at a.created_at)
        (find_many (λ r. r.user_id == user.id) db.recharges))

-- `!r || r.userId !== req.user.id`, as the row that is left.
abbrev pub owned : ℕ → Option Recharge → Option Recharge
owned user_id none = none
owned user_id (some r) = if r.user_id == user_id then some r else none

unfoldable pub get : Option (Option ℕ) → ℕ → Action Recharge
get bearer id = do
  user ← guarded [] bearer
  found ← query λ db. owned user.id (find_first (recharge_has_id id) db.recharges)
  or_raise found (not_found "recharge not found")

abbrev or_empty : Option String → String
or_empty none = ""
or_empty (some s) = s

-- `dev` is DEV_LOGIN === 'true' and NODE_ENV !== 'production'.
unfoldable pub dev_confirm : Bool → Option (Option ℕ) → ℕ → ℕ → Action ConfirmResult
dev_confirm dev bearer id now = do
  user ← guarded [] bearer
  raise_if (not dev) (not_found "Not Found")
  found ← query λ db. owned user.id (find_first (recharge_has_id id) db.recharges)
  r ← or_raise found (not_found "recharge not found")
  confirm_recharge (or_empty r.psp_charge_id) r.amount now

-- `PayoutController.request` behind `JwtAuthGuard` and `RolesGuard` with `@Roles('MODEL')`: the key
-- where it is a string that is not empty, the amount in cents where it is read as a decimal.
unfoldable pub request : ℤ → ℕ → Option (Option ℕ) → Option String → Option ℤ → ℕ → Action Payout
request min_payout id bearer pix_key amount now = do
  user ← guarded (Role.model ∷ []) bearer
  key ← or_raise pix_key (bad_request "pixKey is required")
  cents ← or_raise amount (bad_request "amount must be a valid decimal")
  request_payout min_payout id (Account.model user.id) cents key now

-- `PayoutController.list` over `PayoutService.listForAccount`.
unfoldable pub list_for_account : Account → Action (List Payout)
list_for_account account = query λ db.
    sort_by (λ a b. ltb b.created_at a.created_at)
      (find_many (λ p. account_eq p.account account) db.payouts)

unfoldable pub own_payouts : Option (Option ℕ) → Action (List Payout)
unfolding list_for_account
own_payouts bearer = do
  user ← guarded (Role.model ∷ []) bearer
  list_for_account (Account.model user.id)

unfoldable pub dev_grant : Bool → Option (Option ℕ) → ℕ → Action (Unit {0})
dev_grant dev bearer now = do
  user ← guarded (Role.model ∷ []) bearer
  raise_if (not dev) (not_found "Not Found")
  grant_dev_earnings (Account.model user.id) now

-- `PayoutScheduler.handleTick` and `RechargeSweeper.handleTick`: an exception ends in the log.
unfoldable pub payout_tick : Bool → SendPix → ℕ → ℕ → Action (Unit {0})
payout_tick enabled send_pix stuck_ms now =
    if enabled
    then attempt (process_pending send_pix now >> recover_stuck send_pix stuck_ms now)
        (λ _. pure tt)
    else pure tt

unfoldable pub sweep_tick : Bool → ℕ → Action (Unit {0})
sweep_tick enabled now =
    if enabled then attempt (expire_stale_recharges now >> pure tt) (λ _. pure tt) else pure tt
