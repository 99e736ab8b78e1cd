-- ===== src/Verification/Results.antt =====
-- What a result of the provider does (src/kyc-verification/kyc-verification.service.ts), and what
-- it means for payouts.
use samy.Prelude.{ℕ, ◌≡◌, true, Option, some, List, [], ◌∷◌, String, arith, find_first, update_many}
use samy.Database.Accounts.{Account, account_eq_refl}
use samy.Database.Rows.{KycStatus, KycVerification}
use samy.Database.{Db, ok}
use samy.Payout.{approve_kyc, is_approved}
use samy.Verification.{
  Outcome, apply_result, approve_verification, has_ref, is_pending_verification,
}

pub is_approved-approve_kyc :
    (account : Account) (rows : List KycStatus)
    → is_approved account (approve_kyc account rows) ≡ true
is_approved-approve_kyc account [] = ground (arith, account_eq_refl account)
is_approved-approve_kyc account (k ∷ rows) =
    ground (arith, account_eq_refl account, is_approved-approve_kyc account rows)

find-approved :
    (provider_ref : String) (now : ℕ) (vs : List KycVerification) (v : KycVerification)
    → find_first (has_ref provider_ref) vs ≡ some v
    → find_first
        (has_ref provider_ref)
        (update_many (has_ref provider_ref) (approve_verification now) vs)
      ≡ some (approve_verification now v)
find-approved provider_ref now [] v h = cc
find-approved provider_ref now (x ∷ vs) v h = ground (arith, find-approved provider_ref now vs v)

-- An approval of a verification that is found pending answers normally and leaves the account
-- approved for payouts and the verification found under the reference APPROVED.
pub apply_result-approves :
    (provider_ref : String) (reason : Option String) (now : ℕ) (db : Db) (v : KycVerification)
    → find_first (has_ref provider_ref) db.kyc_verifications ≡ some v
    → is_pending_verification v.status ≡ true
    → ((apply_result provider_ref Outcome.approved reason now db).0 ≡ ok tt)
      × (is_approved v.account
            (apply_result provider_ref Outcome.approved reason now db).1.kyc_status
          ≡ true)
      × (find_first
            (has_ref provider_ref)
            (apply_result provider_ref Outcome.approved reason now db).1.kyc_verifications
          ≡ some (approve_verification now v))
unfolding apply_result
apply_result-approves provider_ref reason now db v e pending = (
  ground arith,
  ground (arith, is_approved-approve_kyc v.account db.kyc_status),
  ground (arith, find-approved provider_ref now db.kyc_verifications v e),
)
