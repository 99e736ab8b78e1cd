-- ===== src/System/Bank/Refines.antt =====
-- Each call of the services (src/billing, src/wallet, src/payout, src/calls) is a run of permitted
-- movements of the bank.
use samy.Prelude.{◌≡◌, some, find_first, ℕ, ◌≢◌, refl, ◌==◌, List, String, arith, All-find_first}
use samy.Prelude.Int.{ℤ, pos, ◌≤ℤ◌}
use samy.Database.Accounts.{Account, Group}
use samy.Database.Rows.{Call, EntryType, GiftType, Payout, Recharge}
use samy.Database.{Db, Result}
use samy.Ledger.{balance}
use samy.Ranking.{TierRow}
use samy.Billing.{ChargeResult, charge_minute, send_gift}
use samy.Billing.Charge.{
  ChargeOutcome, is_missing, is_replay, is_inactive, is_broke, is_crash, is_charged,
  charge_minute-outcome, rate_of,
}
use samy.Billing.GiftSale.{GiftOutcome, is_refused, is_sent, send_gift-outcome}
use samy.Wallet.{ConfirmResult, confirm_recharge, has_charge_id}
use samy.Wallet.Confirm.{
  ConfirmOutcome, is_unknown, was_paid, is_mismatch, is_unclaimed, is_clash, is_credited,
  confirm_recharge-outcome,
}
use samy.Payout.{request_payout}
use samy.Payout.Request
use samy.Payout.Request.{RequestOutcome, request_payout-outcome}
use samy.Database.Queries.{call_has_id, find_call}
use samy.System.Sound.{IsSound, IsTable, HasPrice, tier_rate_for-IsRate, override_of-IsRate}
use samy.System.Sales.{covered}
use samy.System.Money.{HasAmount, not_below}
use samy.System.Bank.{
  BankRun, IsDeposit, IsSale, IsWithdrawal, Moved, Moved-weaken, Movement, idle, unmoved,
}
use samy.System.Bank.Postings.{bank_of, IsDeposit-posted, IsWithdrawal-posted, IsSale-posted}

-- At most one movement of the bank, or a run of movements, between the ledgers of two databases.
abbrev pub Moves : (Movement → Type 0) → Db → Db → Type 0
Moves P db after = Moved P (bank_of db.ledger) (bank_of after.ledger)

abbrev pub Refines : (Movement → Type 0) → Db → Db → Type 0
Refines P db after = BankRun P (bank_of db.ledger) (bank_of after.ledger)

pub still : {P : Movement → Type 0} (db : Db) → Moves P db db
still db = unmoved λ a. refl

pub idle_at : {P : Movement → Type 0} (db : Db) → Refines P db db
idle_at db = idle λ a. refl

-- The sale of a minute of a call, at its price; the sale of a gift; the deposit of a recharge.
abbrev pub IsMinuteOf : ℕ → Db → Movement → Type 0
IsMinuteOf call_id db m =
    (c : Call) × (find_call call_id db ≡ some c)
    × IsSale c.client_user_id c.model_user_id c.price_per_minute_snapshot m

abbrev pub IsGiftOf : ℕ → ℕ → ℕ → Db → Movement → Type 0
IsGiftOf client_id model_id gift_type_id db m =
    (g : GiftType) × (find_first (λ (k : GiftType). k.id == gift_type_id) db.gift_types ≡ some g)
    × IsSale client_id model_id g.price_credits m

abbrev pub IsRechargeOf : String → Db → Movement → Type 0
IsRechargeOf psp_charge_id db m =
    (r : Recharge) × (find_first (has_charge_id psp_charge_id) db.recharges ≡ some r)
    × IsDeposit (Account.client r.user_id) r.amount m

pub charge_minute-Refines :
    (table : List TierRow) (call_id minute now : ℕ) (db : Db)
    → IsTable table
    → IsSound db
    → Moves (IsMinuteOf call_id db) db (charge_minute table call_id minute now db).1
charge_minute-Refines table call_id minute now db t s =
    go (charge_minute-outcome table call_id minute now db)
  where
    go :
        {r : Result ChargeResult × Db}
        → ChargeOutcome table call_id minute now db r
        → Moves (IsMinuteOf call_id db) db r.1
    go (is_missing e) = still db
    go (is_replay e) = still db
    go (is_inactive c e off) = still db
    go (is_broke c e on broke) = still db
    go (is_crash c e n) = still db
    go (is_charged c tier_rate e fresh on rich r) =
        Moved-weaken (λ m kind. (c, e, kind))
          (IsSale-posted c.client_user_id c.model_user_id EntryType.consumo_min EntryType.ganho_min
            c.price_per_minute_snapshot (rate_of table c.model_user_id db tier_rate)
            (Group.call_minute call_id minute) db.ledger
            (All-find_first (call_has_id call_id) HasPrice db.calls c s.call_prices e)
            (override_of-IsRate db c.model_user_id tier_rate s.profiles
              (tier_rate_for-IsRate table c.model_user_id db.ledger tier_rate t r))
            (covered _ c.price_per_minute_snapshot rich))

pub send_gift-Refines :
    (table : List TierRow) (gift_id client_id model_id gift_type_id : ℕ) (db : Db)
    → IsTable table
    → IsSound db
    → Moves
        (IsGiftOf client_id model_id gift_type_id db)
        db
        (send_gift table gift_id client_id model_id gift_type_id db).1
send_gift-Refines table gift_id client_id model_id gift_type_id db t s =
    go (send_gift-outcome table gift_id client_id model_id gift_type_id db)
  where
    go :
        {r : _ × Db}
        → GiftOutcome table gift_id client_id model_id gift_type_id db r
        → Moves (IsGiftOf client_id model_id gift_type_id db) db r.1
    go (is_refused e) = still db
    go (is_sent g m tier_rate e on u role rich r fresh) =
        Moved-weaken (λ k kind. (g, e, kind))
          (IsSale-posted client_id model_id EntryType.presente EntryType.ganho_presente
            g.price_credits (rate_of table model_id db tier_rate) (Group.gift gift_id) db.ledger
            (All-find_first (λ k. k.id == gift_type_id) (λ (k : GiftType). pos 0 ≤ℤ k.price_credits)
              db.gift_types g s.gift_prices e)
            (override_of-IsRate db model_id tier_rate s.profiles
              (tier_rate_for-IsRate table model_id db.ledger tier_rate t r))
            (covered _ g.price_credits rich))

pub confirm_recharge-Refines :
    (psp_charge_id : String) (event_amount : ℤ) (now : ℕ) (db : Db)
    → IsSound db
    → Moves
        (IsRechargeOf psp_charge_id db)
        db
        (confirm_recharge psp_charge_id event_amount now db).1
confirm_recharge-Refines psp_charge_id event_amount now db s =
    go (confirm_recharge-outcome psp_charge_id event_amount now db)
  where
    go :
        {r : Result ConfirmResult × Db}
        → ConfirmOutcome psp_charge_id event_amount now db r
        → Moves (IsRechargeOf psp_charge_id db) db r.1
    go (is_unknown e) = still db
    go (was_paid r e p) = still db
    go (is_mismatch r e d) = still db
    go (is_unclaimed r e p c) = still db
    go (is_clash r c) = still db
    go (is_credited r e p same c fresh) =
        Moved-weaken (λ m kind. (r, e, kind))
          (IsDeposit-posted (Account.client r.user_id) EntryType.recarga EntryType.recarga_offset
            r.amount (Group.recharge r.id) db.ledger (λ x. cc)
            (All-find_first (has_charge_id psp_charge_id) HasAmount db.recharges r s.recharges e))

pub request_payout-Refines :
    (min_payout : ℤ) (id : ℕ) (account : Account) (amount : ℤ) (pix_key : String) (now : ℕ)
    (db : Db)
    → pos 0 ≤ℤ min_payout
    → account ≢ Account.external
    → Moves
        (IsWithdrawal account amount)
        db
        (request_payout min_payout id account amount pix_key now db).1
request_payout-Refines min_payout id account amount pix_key now db min inside =
    go (request_payout-outcome min_payout id account amount pix_key now db)
  where
    go :
        {r : Result Payout × Db}
        → RequestOutcome min_payout id account amount pix_key now db r
        → Moves (IsWithdrawal account amount) db r.1
    go (Request.is_unapproved e) = still db
    go (Request.is_below e) = still db
    go (Request.is_short e) = still db
    go (Request.is_taken e) = still db
    go (Request.is_clash e) = still db
    go (Request.is_accepted approved above enough free fresh) =
        let least = not_below amount min_payout above in
        IsWithdrawal-posted account EntryType.saque EntryType.saque_offset amount (Group.payout id)
          db.ledger inside (omega (arith, least, min))
          (not_below (balance account db.ledger) amount enough)
