-- ===== src/Billing.antt =====
-- src/billing/billing.service.ts: the charge of one minute of a call and the sending of a gift.
-- The tier table is the one that `RankingService` loaded. Both run in a transaction that holds
-- the client's advisory lock, so each is one step against every other that takes the lock.
pub mod TakeRate
pub mod Charge
pub mod GiftSale
pub mod Effects
use samy.Prelude.{
  ℕ, suc, Bool, true, false, not, ◌==◌, ◌||◌, Option, none, some, List, [], ◌∷◌, if◌then◌else◌, any,
  map, find_first, find_many, sort_by, ◌&&◌,
}
use samy.Prelude.Int.{ℤ, pos, neg, ltb_ℤ}
use samy.Database.Accounts.{Account, Group, group_eq}
use samy.Database.Rows.{
  Call, CallStatus, EndReason, EntryType, Gift, GiftType, LedgerEntry, ModelProfile, User,
  is_active, is_model,
}
use samy.Database.{
  Db, Action, Error, not_found, payment_required, internal, unique_violation, pure, raise_if, query,
  or_raise, modify, transaction, ◌>>=◌, ◌>>◌,
}
use samy.Database.Queries.{call_has_id, find_call, find_profile, find_user, update_call}
use samy.Ledger.{LedgerEntryInput, get_balance, post_transaction}
use samy.Ranking.{TierRow, tier_rate_for}
use TakeRate.{Split, resolve_take_rate, compute_split}

-- The five results that `chargeMinute` returns.
pub data ChargeResult : Type 0 where
  charged already_charged ended not_active call_not_found : ChargeResult

abbrev pub has_group : Group → List LedgerEntry → Bool
has_group group = any (λ e. group_eq group e.transaction_group)

abbrev pub override_of : Option ModelProfile → Option ℤ
override_of none = none
override_of (some p) = p.take_rate

-- The client's debit, the model's share and the commission, in the order of the source.
abbrev pub split_entries : ℕ → ℕ → EntryType → EntryType → ℤ → Split → List LedgerEntryInput
split_entries client_id model_id debit earning price split =
    record { account = Account.client client_id; entry_type = debit; amount = neg price }
    ∷ record { account = Account.model model_id; entry_type = earning; amount = split.model_share }
    ∷ record {
      account = Account.platform;
      entry_type = EntryType.comissao;
      amount = split.commission;
    }
    ∷ []

-- The split that applies to a model at the present ledger.
split_for : List TierRow → ℕ → ℤ → Action Split
split_for table model_id price = do
  profile ← query (find_profile model_id)
  tier_rate ← or_raise (← query λ db. tier_rate_for table model_id db.ledger) internal
  pure (compute_split price (resolve_take_rate (override_of profile) tier_rate))

-- The `updateMany` that ends an active call without credits.
abbrev pub end_no_credits : ℕ → ℕ → Call → Call
end_no_credits call_id now c =
    if c.id == call_id && is_active c.status
    then record c {
      status = CallStatus.ended;
      end_reason = some EndReason.no_credits;
      ended_at = some now;
    }
    else c

abbrev pub bill_one : Call → Call
bill_one c = record c { billed_minutes = suc c.billed_minutes }

charge_active : List TierRow → ℕ → Call → ℕ → ℕ → Action ChargeResult
unfolding split_for get_balance
charge_active table call_id fresh minute_number now = do
  balance ← get_balance (Account.client fresh.client_user_id)
  if ltb_ℤ balance fresh.price_per_minute_snapshot
      then (do
        modify λ db. record db { calls = map (end_no_credits call_id now) db.calls }
        pure ended)
      else (do
        split ← split_for table fresh.model_user_id fresh.price_per_minute_snapshot
        post_transaction (Group.call_minute call_id minute_number) (
            split_entries fresh.client_user_id fresh.model_user_id EntryType.consumo_min
              EntryType.ganho_min fresh.price_per_minute_snapshot split)
        update_call call_id bill_one
        pure charged)

-- The body of `chargeMinute` behind the lock: the call is read again.
charge_locked : List TierRow → ℕ → ℕ → ℕ → Action ChargeResult
unfolding charge_active
charge_locked table call_id minute_number now = do
  found ← query (find_call call_id)
  existing ← query λ db. has_group (Group.call_minute call_id minute_number) db.ledger
  elim found [
    | none ↦ pure call_not_found
    | some fresh ↦
        if existing
        then pure already_charged
        else (if is_active fresh.status
            then charge_active table call_id fresh minute_number now
            else pure not_active)
  ]

-- `chargeMinute`: the first read only finds the client whose lock is taken.
unfoldable pub charge_minute : List TierRow → ℕ → ℕ → ℕ → Action ChargeResult
unfolding charge_locked
charge_minute table call_id minute_number now = transaction (do
  call ← query (find_call call_id)
  elim call [ none ↦ pure call_not_found | some _ ↦ charge_locked table call_id minute_number now ])

abbrev pub new_gift : ℕ → ℕ → ℕ → ℕ → ℤ → Gift
new_gift gift_id client_id model_id gift_type_id price = record {
  id = gift_id;
  client_user_id = client_id;
  model_user_id = model_id;
  gift_type_id = gift_type_id;
  price_snapshot = price;
}

-- The writes of `sendGift`: the row, then the posting.
record_gift : Gift → Split → Action Gift
record_gift gift split = do
  raise_if (← query λ db. any (λ g. g.id == gift.id) db.gifts) unique_violation
  modify λ db. record db { gifts = gift ∷ db.gifts }
  post_transaction (Group.gift gift.id) (
      split_entries gift.client_user_id gift.model_user_id EntryType.presente
        EntryType.ganho_presente gift.price_snapshot split)
  pure gift

-- `sendGift`, with the id that the database gives to the new row.
pub send_gift : List TierRow → ℕ → ℕ → ℕ → ℕ → Action Gift
unfolding split_for get_balance
send_gift table gift_id client_id model_id gift_type_id = transaction (do
  gift_type ←
      or_raise (← query λ db. find_first (λ t. t.id == gift_type_id) db.gift_types)
        (not_found "gift not found")
  raise_if (not gift_type.active) (not_found "gift not found")
  model ← or_raise (← query (find_user model_id)) (not_found "model not found")
  raise_if (not (is_model model.role)) (not_found "model not found")
  balance ← get_balance (Account.client client_id)
  raise_if (ltb_ℤ balance gift_type.price_credits) (payment_required "insufficient balance")
  split ← split_for table model_id gift_type.price_credits
  record_gift (new_gift gift_id client_id model_id gift_type_id gift_type.price_credits) split)

-- `listGiftCatalog`: the active ones, the cheapest first.
unfoldable pub list_gift_catalog : Action (List GiftType)
list_gift_catalog = query λ db.
    sort_by (λ a b. ltb_ℤ a.price_credits b.price_credits) (find_many (λ t. t.active) db.gift_types)
