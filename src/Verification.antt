-- ===== src/Verification.antt =====
-- src/kyc-verification/kyc-verification.service.ts: the verification of a model's identity. The
-- provider's `createSession` is a parameter; `dev_ref` is the text `dev:${account}`.
pub mod Results
pub mod Cleared
pub mod Runs
use text.Mathlib.Text.{◌==◌ as str_eq}
use samy.Prelude.{
  ℕ, ◌+◌, Bool, true, false, ◌&&◌, ◌==◌, Option, none, some, List, [], ◌∷◌, String, ltb,
  if◌then◌else◌, any, find_first, find_many, update_many, sort_by,
}
use samy.Database.Accounts.{Account, account_eq}
use samy.Database.Rows.{KycVerification, User, UserStatus, VerificationStatus}
use samy.Database.{
  Db, Action, Error, Result, ok, err, conflict, unique_violation, pure, raise, raise_if, query,
  modify, transaction, ◌>>=◌, ◌>>◌,
}
use samy.Database.Queries.{find_user}
use samy.Payout.{approve_kyc, is_approved}

-- The answer of `createSession`.
pub record Session : Type 0 where
  pub provider_ref : String
  pub client_token : String
  pub expires_at : ℕ

abbrev pub is_pending_verification : VerificationStatus → Bool
is_pending_verification VerificationStatus.pending = true
is_pending_verification _ = false

-- `{ account, status: 'PENDING', sessionExpiresAt: { gt: new Date() } }`.
abbrev pub is_open_session : Account → ℕ → KycVerification → Bool
is_open_session account now v =
    account_eq v.account account && is_pending_verification v.status && ltb now v.session_expires_at

abbrev pub newest_first : KycVerification → KycVerification → Bool
newest_first a b = ltb b.created_at a.created_at

abbrev pub new_verification : ℕ → Account → ℕ → Session → ℕ → KycVerification
new_verification id account user_id session now = record {
  id = id;
  account = account;
  user_id = user_id;
  status = VerificationStatus.pending;
  provider_ref = session.provider_ref;
  client_token = session.client_token;
  session_expires_at = session.expires_at;
  reason = none;
  created_at = now;
  resolved_at = none;
}

abbrev pub has_ref : String → KycVerification → Bool
has_ref provider_ref v = str_eq v.provider_ref provider_ref

-- `start`: the id and the client token of the verification, old or new.
unfoldable pub start : (Account → Session) → ℕ → Account → ℕ → ℕ → Action (ℕ × String)
start create_session id account user_id now = do
  raise_if (← query λ db. is_approved account db.kyc_status) (conflict "KYC already approved")
  existing ←
      query
        λ db. find_first (is_open_session account now) (sort_by newest_first db.kyc_verifications)
  elim existing [
    | some v ↦ pure (v.id, v.client_token)
    | none ↦ (do
      raise_if
          (← query λ db. any (has_ref (create_session account).provider_ref) db.kyc_verifications)
          unique_violation
      modify λ db. record db {
        kyc_verifications =
            new_verification id account user_id (create_session account) now ∷ db.kyc_verifications;
      }
      pure (id, (create_session account).client_token))
  ]

pub data Outcome : Type 0 where
  approved rejected : Outcome

abbrev pub reject_verification : Option String → ℕ → KycVerification → KycVerification
reject_verification reason now v = record v {
  status = VerificationStatus.rejected;
  resolved_at = some now;
  reason = reason;
}

abbrev pub approve_verification : ℕ → KycVerification → KycVerification
approve_verification now v = record v {
  status = VerificationStatus.approved;
  resolved_at = some now;
}

-- `user && user.status === 'PENDING_VERIFICATION'`, and the update to ACTIVE.
abbrev pub awaits_verification : UserStatus → Bool
awaits_verification UserStatus.pending_verification = true
awaits_verification _ = false

abbrev pub promote : ℕ → List User → List User
promote user_id =
    update_many (λ u. u.id == user_id && awaits_verification u.status)
      (λ u. record u { status = UserStatus.active })

abbrev pub approve_all : String → KycVerification → ℕ → Db → Db
approve_all provider_ref v now db = record db {
  kyc_verifications =
      update_many (has_ref provider_ref) (approve_verification now) db.kyc_verifications;
  kyc_status = approve_kyc v.account db.kyc_status;
  users = promote v.user_id db.users;
}

-- `applyResult` for a verification that was found pending.
abbrev pub resolve : String → Outcome → Option String → KycVerification → ℕ → Db → Db
resolve provider_ref Outcome.rejected reason v now db = record db {
  kyc_verifications =
      update_many (has_ref provider_ref) (reject_verification reason now) db.kyc_verifications;
}
resolve provider_ref Outcome.approved reason v now db = approve_all provider_ref v now db

unfoldable pub apply_result : String → Outcome → Option String → ℕ → Action (Unit {0})
apply_result provider_ref outcome reason now = do
  found ← query λ db. find_first (has_ref provider_ref) db.kyc_verifications
  elim found [
    | none ↦ pure tt
    | some v ↦
        if is_pending_verification v.status
        then modify (resolve provider_ref outcome reason v now)
        else pure tt
  ]

abbrev pub dev_row : ℕ → Account → ℕ → String → ℕ → KycVerification
dev_row id account user_id dev_ref now = record {
  id = id;
  account = account;
  user_id = user_id;
  status = VerificationStatus.approved;
  provider_ref = dev_ref;
  client_token = "dev";
  session_expires_at = now + 3600000;
  reason = none;
  created_at = now;
  resolved_at = some now;
}

abbrev pub upsert_dev : ℕ → Account → ℕ → String → ℕ → List KycVerification → List KycVerification
upsert_dev id account user_id dev_ref now vs =
    if any (has_ref dev_ref) vs
    then update_many (has_ref dev_ref) (approve_verification now) vs
    else dev_row id account user_id dev_ref now ∷ vs

unfoldable pub dev_approve : ℕ → Account → ℕ → String → ℕ → Action (Unit {0})
dev_approve id account user_id dev_ref now = modify λ db. record db {
  kyc_verifications = upsert_dev id account user_id dev_ref now db.kyc_verifications;
  kyc_status = approve_kyc account db.kyc_status;
  users = promote user_id db.users;
}

-- `getLatest`; `none` is the answer `{ status: 'NONE' }`.
unfoldable pub get_latest : Account → Action (Option KycVerification)
get_latest account =
    query λ db.
      find_first (λ v. account_eq v.account account) (sort_by newest_first db.kyc_verifications)
