-- ===== src/Endpoints/Webhooks.antt =====
-- What the webhooks let through (src/wallet/wallet.controller.ts).
use text.Mathlib.Text.{◌==◌ as str_eq}
use samy.Prelude.{
  ℕ, ◌≡◌, ◌⊎◌, inl, inr, Bool, true, false, some, String, arith, Bool-cases, Option-cases, ◌==◌,
}
use samy.Prelude.Int.{pos}
use samy.Database.{Db}
use samy.Wallet.{confirm_recharge}
use samy.Endpoints.{PspEvent, handle_psp}

-- The payment that a signed and valid event confirms, and that the service was given it.
pub record Payment (signed : Bool) (event : PspEvent) (now : ℕ) (db after : Db) : Type 0 where
  pub is_signed : signed ≡ true
  pub is_confirmation : str_eq event.event "payment.confirmed" ≡ true
  pub payment_id : String
  pub is_named : event.payment_id ≡ some payment_id
  pub amount : ℕ
  pub is_amount : event.amount ≡ some amount
  pub is_positive : (amount == 0) ≡ false
  pub was_given : after ≡ (confirm_recharge payment_id (pos amount) now db).1

-- A call of the webhook leaves the database as it was, or its signature was valid and its event a
-- confirmation with an id and a positive amount, and the database is the one that
-- `confirmRecharge` leaves for these.
pub handle_psp-Payment :
    (signed : Bool) (event : PspEvent) (now : ℕ) (db : Db)
    → ((handle_psp signed event now db).1 ≡ db)
      ⊎ Payment signed event now db (handle_psp signed event now db).1
unfolding handle_psp
handle_psp-Payment signed event now db = elim (Bool-cases signed) [
  | inr off ↦ inl (ground arith)
  | inl on ↦ elim (Bool-cases (str_eq event.event "payment.confirmed")) [
    | inr other ↦ inl (ground arith)
    | inl same ↦ elim (Option-cases event.payment_id) [
      | inl e ↦ inl (ground arith)
      | inr (payment_id, e) ↦ elim (Option-cases event.user_id) [
        | inl e' ↦ inl (ground arith)
        | inr (user_id, e') ↦ elim (Option-cases event.amount) [
          | inl a ↦ inl (ground arith)
          | inr (amount, a) ↦ elim (Bool-cases (amount == 0)) [
            | inl zero ↦ inl (ground arith)
            | inr more ↦ inr (record {
              is_signed = on;
              is_confirmation = same;
              payment_id = payment_id;
              is_named = e;
              amount = amount;
              is_amount = a;
              is_positive = more;
              was_given = ground arith;
            })
          ]
        ]
      ]
    ]
  ]
]
