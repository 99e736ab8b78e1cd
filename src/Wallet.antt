-- ===== src/Wallet.antt =====
-- src/wallet/wallet.service.ts: recharges by PIX. `create_recharge` takes the payment provider
-- (the port psp-charge.port.ts) as a parameter that answers a charge or fails, and the id that
-- the database gives to the new row.
pub mod Amount
pub mod Confirm
pub mod Create
pub mod Once
use text.Mathlib.Text.{◌==◌ as str_eq}
use samy.Prelude.{
  ℕ, Bool, true, false, not, ◌&&◌, ◌||◌, ◌==◌, Option, none, some, List, [], ◌∷◌, String, ltb,
  if◌then◌else◌, any, find_first, update_many, count,
}
use samy.Prelude.Int.{ℤ, pos, neg, eqb_ℤ}
use samy.Database.Accounts.{Account, Group}
use samy.Database.Rows.{EntryType, Recharge, RechargeStatus, is_paid, is_pending}
use samy.Database.{
  Db, Action, Result, ok, err, bad_request, service_unavailable, unique_violation, attempt, pure,
  raise, raise_if, query, modify, transaction, ◌>>=◌, ◌>>◌,
}
use samy.Database.Queries.{recharge_has_id, update_recharge}
use samy.Ledger.{LedgerEntryInput, post_transaction}
use Amount.{Decimal, decimal_places_above, at_least, to_cents}

-- The results of `confirmRecharge`: `credited: true`, or the reason why not.
pub data ConfirmResult : Type 0 where
  credited unknown already amount_mismatch : ConfirmResult

abbrev pub has_charge_id : String → Recharge → Bool
has_charge_id psp_charge_id r = elim r.psp_charge_id [
  | none ↦ false
  | some id ↦ str_eq id psp_charge_id
]

-- The guard `{ id: recharge.id, status: 'PENDING' }` of the claim, and what it writes.
abbrev pub is_claimable : ℕ → Recharge → Bool
is_claimable id r = recharge_has_id id r && is_pending r.status

abbrev pub mark_paid : ℕ → Recharge → Recharge
mark_paid now r = record r { status = RechargeStatus.paid; paid_at = some now }

abbrev pub recharge_entries : Recharge → List LedgerEntryInput
recharge_entries r =
    record { account = Account.client r.user_id; entry_type = EntryType.recarga; amount = r.amount }
    ∷ record {
      account = Account.external;
      entry_type = EntryType.recarga_offset;
      amount = neg r.amount;
    }
    ∷ []

claim : Recharge → ℕ → Action ConfirmResult
claim r now = do
  claimed ← query λ db. count (is_claimable r.id) db.recharges
  modify
      λ db. record db { recharges = update_many (is_claimable r.id) (mark_paid now) db.recharges }
  if claimed == 1
      then (post_transaction (Group.recharge r.id) (recharge_entries r) >> pure credited)
      else pure already

unfoldable pub confirm_recharge : String → ℤ → ℕ → Action ConfirmResult
unfolding claim
confirm_recharge psp_charge_id event_amount now = transaction (do
  found ← query λ db. find_first (has_charge_id psp_charge_id) db.recharges
  elim found [
    | none ↦ pure unknown
    | some r ↦
        if is_paid r.status
        then pure already
        else (if eqb_ℤ event_amount r.amount then claim r now else pure amount_mismatch)
  ])

-- The provider's answer to `createCharge`.
pub record PspCharge : Type 0 where
  pub psp_charge_id : String
  pub qr_text : String
  pub expires_at : ℕ

abbrev pub with_charge : PspCharge → Recharge → Recharge
with_charge c r = record r {
  psp_charge_id = some c.psp_charge_id;
  qr_text = some c.qr_text;
  expires_at = some c.expires_at;
}

abbrev pub mark_failed : Recharge → Recharge
mark_failed r = record r { status = RechargeStatus.failed }

abbrev pub new_recharge : ℕ → ℕ → ℤ → ℕ → Recharge
new_recharge id user_id amount now = record {
  id = id;
  user_id = user_id;
  amount = amount;
  status = RechargeStatus.pending;
  psp_charge_id = none;
  qr_text = none;
  expires_at = none;
  created_at = now;
  paid_at = none;
}

-- `createRecharge`: the provider is asked with the row's id, the amount and the user.
unfoldable pub create_recharge :
    (ℕ → ℤ → ℕ → Option PspCharge) → ℤ → ℕ → ℕ → Decimal → ℕ → Action (Unit {0})
create_recharge create_charge min_recharge id user_id amount now = do
  raise_if (decimal_places_above 2 amount || not (at_least amount min_recharge))
      (bad_request "amount must be a positive value of at least the minimum")
  raise_if (← query λ db. any (recharge_has_id id) db.recharges) unique_violation
  modify
      λ db. record db { recharges = new_recharge id user_id (to_cents amount) now ∷ db.recharges }
  attempt
      (elim (create_charge id (to_cents amount) user_id) [
        | none ↦ raise (service_unavailable "createCharge failed")
        | some charge ↦ update_recharge id (with_charge charge)
      ])
      (λ _.
        update_recharge id mark_failed
        >> raise (service_unavailable "payment provider unavailable"))

-- The guard and the write of `expireStaleRecharges`; a null `expiresAt` is never below `now`.
abbrev pub is_stale : ℕ → Recharge → Bool
is_stale now r = is_pending r.status && elim r.expires_at [ none ↦ false | some t ↦ ltb t now ]

abbrev pub mark_expired : Recharge → Recharge
mark_expired r = record r { status = RechargeStatus.expired }

unfoldable pub expire_stale_recharges : ℕ → Action ℕ
expire_stale_recharges now = do
  n ← query λ db. count (is_stale now) db.recharges
  modify λ db. record db { recharges = update_many (is_stale now) mark_expired db.recharges }
  pure n
