-- ===== src/System/Sales.antt =====
-- The sales of src/billing/billing.service.ts keep the invariant.
use samy.Prelude.{ℕ, ◌≡◌, refl, ◌==◌, true, false, List, ◌∷◌, ◌++◌, arith, All-find_first}
use samy.Prelude.Int.{ℤ, pos, ltb_ℤ, ◌≤ℤ◌}
use samy.Database.Accounts.{Account, Group}
use samy.Database.Rows.{Call, EntryType, GiftType, LedgerEntry, is_active, EndReason}
use samy.Database.{Db, Result}
use samy.Database.Queries.{call_has_id}
use samy.Ledger.{balance, rows_from}
use samy.Ledger.Posting.{posted, Posts-IsBooked, IsBooked}
use samy.Ledger.Solvency.{IsSolvent, sale-IsSolvent}
use samy.Ranking.{TierRow}
use samy.Billing.TakeRate.{compute_split, compute_split-nonneg}
use samy.Billing.{ChargeResult, new_gift, split_entries, charge_minute, send_gift, bill_one}
use samy.Billing.Charge.{
  ChargeOutcome, is_missing, is_replay, is_inactive, is_broke, is_crash, is_charged,
  charge_minute-outcome, split_entries-balanced, has_group-clashes, rate_of, minute_entries,
}
use samy.Billing.GiftSale.{GiftOutcome, is_refused, is_sent, send_gift-outcome, gift_entries}
use samy.Calls.Lifecycle.{Evolves, Evolves-end_if, Evolves-update, IsSuccessor}
use samy.Calls.Ids.{UniqueIds-Evolves}
use samy.System.Sound.{
  IsSound, IsTable, IsRate, HasPrice-Evolves, tier_rate_for-IsRate, override_of-IsRate, HasPrice,
}

pub covered : (b price : ℤ) → ltb_ℤ b price ≡ false → price ≤ℤ b
covered b price h = ground arith

-- A sale at a covered price and a rate between 0 and 1 leaves the ledger solvent and booked.
module _ (client_id model_id : ℕ) (debit earning : EntryType) (price rate : ℤ) (group : Group)
    (l : List LedgerEntry) (enough : ltb_ℤ (balance (Account.client client_id) l) price ≡ false)
    (price_nonneg : pos 0 ≤ℤ price) (is_rate : IsRate rate) where
  sold-IsSolvent :
      IsSolvent l
      → IsSolvent (
          rows_from 0 group
            (split_entries client_id model_id debit earning price (compute_split price rate))
          ++ l)
  sold-IsSolvent s =
      let parts = compute_split-nonneg price rate price_nonneg is_rate.0 is_rate.1 in
      sale-IsSolvent client_id model_id debit earning price (compute_split price rate).model_share
        (compute_split price rate).commission group l (covered _ price enough) parts.1 parts.0 s

bill_one-IsSuccessor : (c : Call) → is_active c.status ≡ true → IsSuccessor c (bill_one c)
bill_one-IsSuccessor c h = ground arith

pub evolved-IsSound :
    {db : Db} (cs : List Call)
    → Evolves db.calls cs
    → IsSound db
    → IsSound (record db { calls = cs })
evolved-IsSound {db} cs e s = record {
  booked = s.booked;
  solvent = s.solvent;
  unique = UniqueIds-Evolves db.calls cs e s.unique;
  call_prices = HasPrice-Evolves db.calls cs e s.call_prices;
  profiles = s.profiles;
  gift_prices = s.gift_prices;
  recharges = s.recharges;
  payouts = s.payouts;
}

-- A ledger that is booked and solvent may stand in for the present one.
pub posted-IsSound :
    {db : Db} (l : List LedgerEntry)
    → IsBooked l
    → IsSolvent l
    → IsSound db
    → IsSound (record db { ledger = l })
posted-IsSound l b v s = record {
  booked = b;
  solvent = v;
  unique = s.unique;
  call_prices = s.call_prices;
  profiles = s.profiles;
  gift_prices = s.gift_prices;
  recharges = s.recharges;
  payouts = s.payouts;
}

pub charge_minute-IsSound :
    (table : List TierRow) (call_id minute now : ℕ) (db : Db)
    → IsTable table
    → IsSound db
    → IsSound (charge_minute table call_id minute now db).1
charge_minute-IsSound table call_id minute now db t s =
    go (charge_minute-outcome table call_id minute now db)
  where
    go : {r : Result ChargeResult × Db} → ChargeOutcome table call_id minute now db r → IsSound r.1
    go (is_missing e) = s
    go (is_replay e) = s
    go (is_inactive c e off) = s
    go (is_broke c e on broke) =
        evolved-IsSound _ (Evolves-end_if is_active EndReason.no_credits call_id now db.calls refl)
          s
    go (is_crash c e n) = s
    go (is_charged c tier_rate e fresh on rich r) =
        let rate = rate_of table c.model_user_id db tier_rate in
        let is_rate =
          override_of-IsRate db c.model_user_id tier_rate s.profiles
            (tier_rate_for-IsRate table c.model_user_id db.ledger tier_rate t r) in
        let price = All-find_first (call_has_id call_id) HasPrice db.calls c s.call_prices e in
        let group = Group.call_minute call_id minute in
        posted-IsSound _
          (Posts-IsBooked
            (posted group (minute_entries c rate)
              (split_entries-balanced c.client_user_id c.model_user_id EntryType.consumo_min
                EntryType.ganho_min c.price_per_minute_snapshot rate)
              (has_group-clashes db.ledger group (minute_entries c rate) fresh) refl)
            s.booked)
          (sold-IsSolvent c.client_user_id c.model_user_id EntryType.consumo_min EntryType.ganho_min
            c.price_per_minute_snapshot rate group db.ledger rich price is_rate s.solvent)
          (evolved-IsSound _
            (Evolves-update call_id bill_one db.calls c s.unique e (bill_one-IsSuccessor c on)) s)

pub send_gift-IsSound :
    (table : List TierRow) (gift_id client_id model_id gift_type_id : ℕ) (db : Db)
    → IsTable table
    → IsSound db
    → IsSound (send_gift table gift_id client_id model_id gift_type_id db).1
send_gift-IsSound table gift_id client_id model_id gift_type_id db t s =
    go (send_gift-outcome table gift_id client_id model_id gift_type_id db)
  where
    go : {r : _ × Db} → GiftOutcome table gift_id client_id model_id gift_type_id db r → IsSound r.1
    go (is_refused e) = s
    go (is_sent g m tier_rate e on u role rich r fresh) =
        let rate = rate_of table model_id db tier_rate in
        let is_rate =
          override_of-IsRate db model_id tier_rate s.profiles
            (tier_rate_for-IsRate table model_id db.ledger tier_rate t r) in
        let price =
          All-find_first (λ k. k.id == gift_type_id) (λ (k : GiftType). pos 0 ≤ℤ k.price_credits)
            db.gift_types g s.gift_prices e in
        posted-IsSound
          {db = record db {
            gifts = new_gift gift_id client_id model_id gift_type_id g.price_credits ∷ db.gifts;
          }}
          _
          (Posts-IsBooked
            (posted (Group.gift gift_id) (gift_entries client_id model_id g.price_credits rate)
              (split_entries-balanced client_id model_id EntryType.presente EntryType.ganho_presente
                g.price_credits rate)
              fresh refl)
            s.booked)
          (sold-IsSolvent client_id model_id EntryType.presente EntryType.ganho_presente
            g.price_credits rate (Group.gift gift_id) db.ledger rich price is_rate s.solvent)
          (record {
            booked = s.booked;
            solvent = s.solvent;
            unique = s.unique;
            call_prices = s.call_prices;
            profiles = s.profiles;
            gift_prices = s.gift_prices;
            recharges = s.recharges;
            payouts = s.payouts;
          })
