-- ===== src/Payout/Request.antt =====
-- What `requestPayout` (src/payout/payout.service.ts) does.
use mathlib.Core.Path.{subst}
use samy.Prelude.{ℕ, ◌≡◌, true, false, List, ◌++◌, ◌∷◌, String, arith, any, Bool-cases, inl, inr}
use samy.Prelude.Int.{ℤ, pos, ltb_ℤ, int_laws}
use samy.Database.Accounts.{Account, Group}
use samy.Database.Rows.{LedgerEntry, Payout}
use samy.Database.{Db, Result, ok, err, bad_request, forbidden, unique_violation, transaction}
use samy.Database.Queries.{payout_has_id}
use samy.Ledger.{rows_from, total_from, clashes, balance}
use samy.Ledger.Posting.{post_transaction_lem}
use samy.Payout.{is_approved, new_payout, payout_entries, request_locked, request_payout}

pub payout_entries-balanced : (p : Payout) → total_from (pos 0) (payout_entries p) ≡ pos 0
payout_entries-balanced p = omega int_laws

abbrev pub payout_rows : Payout → List LedgerEntry
payout_rows p = rows_from 0 (Group.payout p.id) (payout_entries p)

abbrev pub requested_db : Db → Payout → Db
requested_db db p = record db { ledger = payout_rows p ++ db.ledger; payouts = p ∷ db.payouts }

module _ (min_payout : ℤ) (id : ℕ) (account : Account) (amount : ℤ) (pix_key : String) (now : ℕ)
    (db : Db) where
  -- The outcomes of `requestPayout`: a refusal leaves the database as it was.
  pub data RequestOutcome : Result Payout × Db → Type 0 where
    is_unapproved :
        is_approved account db.kyc_status ≡ false
        → RequestOutcome (err (forbidden "KYC not approved"), db)
    is_below :
        ltb_ℤ amount min_payout ≡ true
        → RequestOutcome (err (bad_request "Amount below minimum payout"), db)
    is_short :
        ltb_ℤ (balance account db.ledger) amount ≡ true
        → RequestOutcome (err (bad_request "Insufficient balance"), db)
    is_taken : any (payout_has_id id) db.payouts ≡ true → RequestOutcome (err unique_violation, db)
    is_clash :
        clashes (payout_rows (new_payout id account amount pix_key now)) db.ledger ≡ true
        → RequestOutcome (err unique_violation, db)
    is_accepted :
        is_approved account db.kyc_status ≡ true
        → ltb_ℤ amount min_payout ≡ false
        → ltb_ℤ (balance account db.ledger) amount ≡ false
        → any (payout_has_id id) db.payouts ≡ false
        → clashes (payout_rows (new_payout id account amount pix_key now)) db.ledger ≡ false
        → RequestOutcome (
          ok (new_payout id account amount pix_key now),
          requested_db db (new_payout id account amount pix_key now),
        )

  request_locked-outcome :
      is_approved account db.kyc_status ≡ true
      → ltb_ℤ amount min_payout ≡ false
      → RequestOutcome (transaction (request_locked id account amount pix_key now) db)
  unfolding request_locked
  request_locked-outcome approved above =
      elim (Bool-cases (ltb_ℤ (balance account db.ledger) amount)) [
        | inl short ↦ subst RequestOutcome (ground arith) (is_short short)
        | inr covered ↦ elim (Bool-cases (any (payout_has_id id) db.payouts)) [
          | inl taken ↦ subst RequestOutcome (ground arith) (is_taken taken)
          | inr free ↦ elim (Bool-cases (clashes (payout_rows p) db.ledger)) [
            | inl clash ↦
                subst RequestOutcome
                  (ground (
                    arith,
                    post_transaction_lem (Group.payout id) (payout_entries p)
                        (record db { payouts = p ∷ db.payouts }),
                    payout_entries-balanced p,
                  ))
                  (is_clash clash)
            | inr fresh ↦
                subst RequestOutcome
                  (ground (
                    arith,
                    post_transaction_lem (Group.payout id) (payout_entries p)
                        (record db { payouts = p ∷ db.payouts }),
                    payout_entries-balanced p,
                  ))
                  (is_accepted approved above covered free fresh)
          ]
        ]
      ]
    where
      p : Payout
      p = new_payout id account amount pix_key now

  -- Every result of `requestPayout`: each refusal, where its test holds, and no change; or, where
  -- every test passes, the new row and its posting.
  pub request_payout-outcome :
      RequestOutcome (request_payout min_payout id account amount pix_key now db)
  unfolding request_payout
  request_payout-outcome = elim (Bool-cases (is_approved account db.kyc_status)) [
    | inr unapproved ↦ subst RequestOutcome (ground arith) (is_unapproved unapproved)
    | inl approved ↦ elim (Bool-cases (ltb_ℤ amount min_payout)) [
      | inl below ↦ subst RequestOutcome (ground arith) (is_below below)
      | inr above ↦ subst RequestOutcome (ground arith) (request_locked-outcome approved above)
    ]
  ]
