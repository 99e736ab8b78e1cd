-- ===== src/Billing/GiftSale.antt =====
-- What `sendGift` (src/billing/billing.service.ts) does, by its outcomes.
use mathlib.Core.Path.{subst, sym}
use samy.Prelude.{
  ℕ, ◌≡◌, ◌==◌, true, false, some, List, ◌∷◌, ◌++◌, arith, any, Bool-cases, Option-cases, inl, inr,
  find_first,
}
use samy.Prelude.Int.{ℤ, ltb_ℤ}
use samy.Database.Accounts.{Account, Group}
use samy.Database.Rows.{EntryType, Gift, GiftType, LedgerEntry, User, is_model}
use samy.Database.{
  transaction, Db, Error, Result, ok, err, not_found, payment_required, internal, unique_violation,
}
use samy.Database.Queries.{find_user}
use samy.Ledger.{LedgerEntryInput, rows_from, clashes, balance}
use samy.Ledger.Posting.{post_transaction_lem}
use samy.Ranking.{TierRow, tier_rate_for}
use samy.Billing.TakeRate.{Split, compute_split}
use samy.Billing.Charge.{rate_of, split_entries-balanced}
use samy.Billing.{new_gift, record_gift, split_entries, send_gift}

abbrev pub gift_entries : ℕ → ℕ → ℤ → ℤ → List LedgerEntryInput
gift_entries client_id model_id price rate =
    split_entries client_id model_id EntryType.presente EntryType.ganho_presente price
      (compute_split price rate)

module _ (table : List TierRow) (gift_id client_id model_id gift_type_id : ℕ) (db : Db) where
  abbrev pub gift_rows : GiftType → ℤ → List LedgerEntry
  gift_rows t tier_rate =
      rows_from 0 (Group.gift gift_id)
        (gift_entries client_id model_id t.price_credits (rate_of table model_id db tier_rate))

  abbrev pub gift_row : GiftType → Gift
  gift_row t = new_gift gift_id client_id model_id gift_type_id t.price_credits

  -- The outcomes of `sendGift`: a refusal leaves the database as it was.
  pub data GiftOutcome : Result Gift × Db → Type 0 where
    is_refused : (e : Error) → GiftOutcome (err e, db)
    is_sent :
        (t : GiftType) (model : User) (tier_rate : ℤ)
        → find_first (λ g. g.id == gift_type_id) db.gift_types ≡ some t
        → t.active ≡ true
        → find_user model_id db ≡ some model
        → is_model model.role ≡ true
        → ltb_ℤ (balance (Account.client client_id) db.ledger) t.price_credits ≡ false
        → tier_rate_for table model_id db.ledger ≡ some tier_rate
        → clashes (gift_rows t tier_rate) db.ledger ≡ false
        → GiftOutcome (
          ok (gift_row t),
          record db { ledger = gift_rows t tier_rate ++ db.ledger; gifts = gift_row t ∷ db.gifts },
        )

  record_gift_taken :
      (gift : Gift) (split : Split) (d : Db)
      → any (λ g. g.id == gift.id) d.gifts ≡ true
      → record_gift gift split d ≡ (err unique_violation, d)
  unfolding record_gift
  record_gift_taken gift split d used = ground arith

  record_gift_clash :
      (t : GiftType) (rate : ℤ)
      → any (λ g. g.id == gift_id) db.gifts ≡ false
      → clashes
          (rows_from 0 (Group.gift gift_id) (gift_entries client_id model_id t.price_credits rate))
          db.ledger
        ≡ true
      → transaction (record_gift (gift_row t) (compute_split t.price_credits rate)) db
        ≡ (err unique_violation, db)
  unfolding record_gift
  record_gift_clash t rate free clash = ground (
    arith,
    post_transaction_lem (Group.gift gift_id) (gift_entries client_id model_id t.price_credits rate)
        (record db { gifts = gift_row t ∷ db.gifts }),
    split_entries-balanced client_id model_id EntryType.presente EntryType.ganho_presente
        t.price_credits rate,
  )

  record_gift_done :
      (t : GiftType) (rate : ℤ)
      → any (λ g. g.id == gift_id) db.gifts ≡ false
      → clashes
          (rows_from 0 (Group.gift gift_id) (gift_entries client_id model_id t.price_credits rate))
          db.ledger
        ≡ false
      → transaction (record_gift (gift_row t) (compute_split t.price_credits rate)) db ≡ (
        ok (gift_row t),
        record db {
          ledger =
              rows_from 0
                (Group.gift gift_id)
                (gift_entries client_id model_id t.price_credits rate)
              ++ db.ledger;
          gifts = gift_row t ∷ db.gifts;
        },
      )
  unfolding record_gift
  record_gift_done t rate free fresh = ground (
    arith,
    post_transaction_lem (Group.gift gift_id) (gift_entries client_id model_id t.price_credits rate)
        (record db { gifts = gift_row t ∷ db.gifts }),
    split_entries-balanced client_id model_id EntryType.presente EntryType.ganho_presente
        t.price_credits rate,
  )

  -- Behind the checks `sendGift` is `record_gift` at the rate that applies.
  send_gift_checked :
      (t : GiftType) (model : User) (tier_rate : ℤ)
      → find_first (λ g. g.id == gift_type_id) db.gift_types ≡ some t
      → t.active ≡ true
      → find_user model_id db ≡ some model
      → is_model model.role ≡ true
      → ltb_ℤ (balance (Account.client client_id) db.ledger) t.price_credits ≡ false
      → tier_rate_for table model_id db.ledger ≡ some tier_rate
      → send_gift table gift_id client_id model_id gift_type_id db
        ≡ transaction
            (record_gift
              (gift_row t)
              (compute_split t.price_credits (rate_of table model_id db tier_rate)))
            db
  unfolding send_gift
  send_gift_checked t model tier_rate e on u role rich r = ground arith

  recorded :
      (t : GiftType) (model : User) (tier_rate : ℤ)
      → find_first (λ g. g.id == gift_type_id) db.gift_types ≡ some t
      → t.active ≡ true
      → find_user model_id db ≡ some model
      → is_model model.role ≡ true
      → ltb_ℤ (balance (Account.client client_id) db.ledger) t.price_credits ≡ false
      → tier_rate_for table model_id db.ledger ≡ some tier_rate
      → GiftOutcome (
          transaction
            (record_gift
              (gift_row t)
              (compute_split t.price_credits (rate_of table model_id db tier_rate)))
            db)
  recorded t model tier_rate e on u role rich r =
      let rate = rate_of table model_id db tier_rate in
      elim (Bool-cases (any (λ g. g.id == gift_id) db.gifts)) [
        | inl used ↦
            subst GiftOutcome
              (ground (
                arith,
                record_gift_taken (gift_row t) (compute_split t.price_credits rate) db used,
              ))
              (is_refused unique_violation)
        | inr free ↦ elim (Bool-cases (clashes (gift_rows t tier_rate) db.ledger)) [
          | inl clash ↦
              subst GiftOutcome (sym (record_gift_clash t rate free clash))
                (is_refused unique_violation)
          | inr fresh ↦
              subst GiftOutcome (sym (record_gift_done t rate free fresh))
                (is_sent t model tier_rate e on u role rich r fresh)
        ]
      ]

  pub send_gift-outcome : GiftOutcome (send_gift table gift_id client_id model_id gift_type_id db)
  unfolding send_gift
  send_gift-outcome = elim (Option-cases (find_first (λ g. g.id == gift_type_id) db.gift_types)) [
    | inl e ↦ subst GiftOutcome (ground arith) (is_refused (not_found "gift not found"))
    | inr (t, e) ↦ elim (Bool-cases t.active) [
      | inr off ↦ subst GiftOutcome (ground arith) (is_refused (not_found "gift not found"))
      | inl on ↦ elim (Option-cases (find_user model_id db)) [
        | inl u ↦ subst GiftOutcome (ground arith) (is_refused (not_found "model not found"))
        | inr (model, u) ↦ elim (Bool-cases (is_model model.role)) [
          | inr other ↦ subst GiftOutcome (ground arith) (is_refused (not_found "model not found"))
          | inl role ↦
              elim (Bool-cases
                (ltb_ℤ (balance (Account.client client_id) db.ledger) t.price_credits)) [
                  | inl short ↦
                      subst GiftOutcome (ground arith)
                        (is_refused (payment_required "insufficient balance"))
                  | inr rich ↦ elim (Option-cases (tier_rate_for table model_id db.ledger)) [
                    | inl n ↦ subst GiftOutcome (ground arith) (is_refused internal)
                    | inr (tier_rate, r) ↦
                        rw (send_gift_checked t model tier_rate e on u role rich r)
                          (recorded t model tier_rate e on u role rich r)
                  ]
                ]
        ]
      ]
    ]
  ]
