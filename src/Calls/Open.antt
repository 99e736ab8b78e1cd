-- ===== src/Calls/Open.antt =====
-- What `initiate` of src/calls/call.service.ts checks before it creates a call.
use mathlib.Core.Path.{subst}
use samy.Prelude.{ℕ, ◌≡◌, true, false, some, ◌∷◌, arith, any, Bool-cases, Option-cases, inl, inr}
use samy.Prelude.Int.{ltb_ℤ}
use samy.Database.Accounts.{Account}
use samy.Database.Rows.{Call, ModelProfile}
use samy.Database.{Db, Error, Result, ok, err}
use samy.Database.Queries.{call_has_id, find_profile, find_user}
use samy.Ledger.{balance}
use samy.Calls.{callable_profile, initiate, is_online, new_call, open_for_client, open_for_model}

-- The outcomes of `initiate`: an error and no change, or a new row where every check passed.
pub data InitiateOutcome (id client_id model_id now : ℕ) (db : Db) : Result Call × Db → Type 0 where
  is_refused : (e : Error) → InitiateOutcome id client_id model_id now db (err e, db)
  is_created :
      (p : ModelProfile)
      → any (open_for_client client_id) db.calls ≡ false
      → callable_profile (find_user model_id db) (find_profile model_id db) ≡ some p
      → any (open_for_model model_id) db.calls ≡ false
      → is_online now model_id db.presence ≡ true
      → ltb_ℤ (balance (Account.client client_id) db.ledger) p.price_per_minute ≡ false
      → any (call_has_id id) db.calls ≡ false
      → InitiateOutcome id client_id model_id now db (
        ok (new_call id client_id model_id p.price_per_minute now),
        record db { calls = new_call id client_id model_id p.price_per_minute now ∷ db.calls },
      )

-- `initiate` raises an error and changes nothing, or adds one requested call at the model's price,
-- where neither party has an open call, the model is active with a profile and online, the
-- client's balance covers a minute, and the id is unused.
pub initiate-outcome :
    (id client_id model_id now : ℕ) (db : Db)
    → InitiateOutcome id client_id model_id now db (initiate id client_id model_id now db)
unfolding initiate
initiate-outcome id client_id model_id now db =
    elim (Bool-cases (any (open_for_client client_id) db.calls)) [
      | inl busy ↦
          subst Outcome (ground arith) (is_refused (Error.conflict "client already in a call"))
      | inr idle ↦
          elim (Option-cases
            (callable_profile (find_user model_id db) (find_profile model_id db))) [
              | inl e ↦
                  subst Outcome (ground arith) (is_refused (Error.not_found "model not available"))
              | inr (p, e) ↦ elim (Bool-cases (any (open_for_model model_id) db.calls)) [
                | inl taken ↦
                    subst Outcome (ground arith) (is_refused (Error.conflict "model busy"))
                | inr free ↦ elim (Bool-cases (is_online now model_id db.presence)) [
                  | inr off ↦
                      subst Outcome (ground arith) (is_refused (Error.conflict "model offline"))
                  | inl on ↦
                      elim (Bool-cases
                        (ltb_ℤ (balance (Account.client client_id) db.ledger) p.price_per_minute)) [
                          | inl short ↦
                              subst Outcome (ground arith)
                                (is_refused (Error.payment_required "insufficient balance"))
                          | inr rich ↦ elim (Bool-cases (any (call_has_id id) db.calls)) [
                            | inl used ↦
                                subst Outcome (ground arith) (is_refused Error.unique_violation)
                            | inr fresh ↦
                                subst Outcome (ground arith)
                                  (is_created p idle e free on rich fresh)
                          ]
                        ]
                ]
              ]
            ]
    ]
  where
    Outcome : Result Call × Db → Type 0
    Outcome = InitiateOutcome id client_id model_id now db
