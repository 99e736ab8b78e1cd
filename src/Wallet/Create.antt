-- ===== src/Wallet/Create.antt =====
-- What `createRecharge` (src/wallet/wallet.service.ts) does, by its outcomes.
use mathlib.Core.Path.{subst}
use samy.Prelude.{
  ℕ, ◌*◌, ◌^◌, ◌≡◌, true, false, not, ◌||◌, Option, none, some, ◌∷◌, arith, any, Bool-cases,
  Option-cases, inl, inr, update_many-none,
}
use samy.Prelude.Int.{ℤ, pos_part}
use samy.Database.Rows.{Recharge}
use samy.Database.{Db, Result, ok, err, bad_request, service_unavailable, unique_violation}
use samy.Database.Queries.{recharge_has_id}
use samy.Wallet.Amount.{Decimal, dec, decimal_places_above, at_least, to_cents}
use samy.Wallet.{PspCharge, create_recharge, mark_failed, new_recharge, with_charge}

module _ (create_charge : ℕ → ℤ → ℕ → Option PspCharge) (min_recharge : ℤ) (id user_id : ℕ)
    (amount : Decimal) (now : ℕ) (db : Db) where
  abbrev pub fresh_row : Recharge
  fresh_row = new_recharge id user_id (to_cents amount) now

  -- The outcomes of `createRecharge`: refused with no change, a pending row with the provider's
  -- charge, or a failed row where the provider did not answer.
  pub data CreateOutcome : Result (Unit {0}) × Db → Type 0 where
    is_refused :
        (decimal_places_above 2 amount || not (at_least amount min_recharge)) ≡ true
        → CreateOutcome
            (err (bad_request "amount must be a positive value of at least the minimum"), db)
    is_taken :
        any (recharge_has_id id) db.recharges ≡ true → CreateOutcome (err unique_violation, db)
    is_open :
        (c : PspCharge)
        → decimal_places_above 2 amount ≡ false
        → at_least amount min_recharge ≡ true
        → any (recharge_has_id id) db.recharges ≡ false
        → create_charge id (to_cents amount) user_id ≡ some c
        → CreateOutcome (ok tt, record db { recharges = with_charge c fresh_row ∷ db.recharges })
    is_failed :
        decimal_places_above 2 amount ≡ false
        → at_least amount min_recharge ≡ true
        → any (recharge_has_id id) db.recharges ≡ false
        → create_charge id (to_cents amount) user_id ≡ none
        → CreateOutcome (
          err (service_unavailable "payment provider unavailable"),
          record db { recharges = mark_failed fresh_row ∷ db.recharges },
        )

  -- Every result of `createRecharge`: an amount that is refused and a used id change nothing; with
  -- an accepted amount a pending row holds the provider's charge, or, where the provider fails, a
  -- failed row is left and the exception is the service's own.
  pub create_recharge-outcome :
      CreateOutcome (create_recharge create_charge min_recharge id user_id amount now db)
  unfolding create_recharge
  create_recharge-outcome =
      elim (Bool-cases (decimal_places_above 2 amount || not (at_least amount min_recharge))) [
        | inl bad ↦ subst CreateOutcome (ground arith) (is_refused bad)
        | inr good ↦ elim (Bool-cases (any (recharge_has_id id) db.recharges)) [
          | inl used ↦ subst CreateOutcome (ground arith) (is_taken used)
          | inr free ↦ elim (Option-cases (create_charge id (to_cents amount) user_id)) [
            | inl down ↦
                subst CreateOutcome
                  (ground
                    (arith, update_many-none (recharge_has_id id) mark_failed db.recharges free))
                  (is_failed (ground arith) (ground arith) free down)
            | inr (c, up) ↦
                subst CreateOutcome
                  (ground (
                    arith,
                    update_many-none (recharge_has_id id) (with_charge c) db.recharges free,
                  ))
                  (is_open c (ground arith) (ground arith) free up)
          ]
        ]
      ]

-- What `createRecharge` has stored of a requested amount of m / 10^p: nothing, or one new row of
-- the user that holds exactly this amount, which reaches the minimum.
pub data Stored (min_recharge : ℤ) (id user_id m p : ℕ) (db after : Db) : Type 0 where
  is_unstored : after ≡ db → Stored min_recharge id user_id m p db after
  is_stored :
      (r : Recharge)
      → after ≡ record db { recharges = r ∷ db.recharges }
      → any (recharge_has_id id) db.recharges ≡ false
      → r.id ≡ id
      → r.user_id ≡ user_id
      → pos_part r.amount * 10 ^ p ≡ m * 100
      → at_least (dec false m p) min_recharge ≡ true
      → Stored min_recharge id user_id m p db after
