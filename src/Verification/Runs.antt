-- ===== src/Verification/Runs.antt =====
-- Histories of src/kyc-verification/kyc-verification.service.ts without its development endpoint.
use mathlib.Core.Path.{subst}
use samy.Prelude.{
  All-sort_by, ℕ, ◌≡◌, true, Option, some, List, [], ◌∷◌, String, arith, All-find_first,
  find_first-holds, find_first, sort_by,
}
use samy.Database.Accounts.{Account, account_eq, account_eq_sound}
use samy.Database.Rows.{KycVerification}
use samy.Database.{Db, ok}
use samy.Payout.{is_approved}
use samy.Verification.{Outcome, Session, apply_result, get_latest, newest_first, start}
use samy.Verification.Cleared.{
  IsCleared, apply_result-IsCleared, is_approved_status, is_clear, start-IsCleared,
}

-- A call of the verification service.
pub data KycOp : Type 0 where
  starts : (Account → Session) → ℕ → Account → ℕ → ℕ → KycOp
  results : String → Outcome → Option String → ℕ → KycOp

abbrev pub kyc_step : KycOp → Db → Db
kyc_step (KycOp.starts create_session id account user_id now) db =
    (start create_session id account user_id now db).1
kyc_step (KycOp.results ref outcome reason now) db = (apply_result ref outcome reason now db).1

unfoldable pub kyc_run : List KycOp → Db → Db
kyc_run [] db = db
kyc_run (op ∷ ops) db = kyc_run ops (kyc_step op db)

pub kyc_run-IsCleared : (ops : List KycOp) (db : Db) → IsCleared db → IsCleared (kyc_run ops db)
unfolding kyc_run
kyc_run-IsCleared [] db k = k
kyc_run-IsCleared (KycOp.starts create_session id account user_id now ∷ ops) db k =
    kyc_run-IsCleared ops _ (start-IsCleared create_session id account user_id now db k)
kyc_run-IsCleared (KycOp.results ref outcome reason now ∷ ops) db k =
    kyc_run-IsCleared ops _ (apply_result-IsCleared ref outcome reason now db k)

-- The latest verification of an account is approved only if the account is.
pub get_latest-approved :
    (account : Account) (db : Db) (v : KycVerification)
    → IsCleared db
    → (get_latest account db).0 ≡ ok (some v)
    → is_approved_status v.status ≡ true
    → is_approved account db.kyc_status ≡ true
unfolding get_latest
get_latest-approved account db v k h good =
    subst (λ a. is_approved a db.kyc_status ≡ true)
      (account_eq_sound v.account account
        (find_first-holds (λ w. account_eq w.account account) sorted v found))
      (cleared (
        All-find_first (λ w. account_eq w.account account) (λ w. is_clear db.kyc_status w ≡ true)
          sorted v
          (All-sort_by (λ w. is_clear db.kyc_status w ≡ true) newest_first db.kyc_verifications
            k.clear)
          found))
  where
    sorted : List KycVerification
    sorted = sort_by newest_first db.kyc_verifications

    found : find_first (λ w. account_eq w.account account) sorted ≡ some v
    found = ground (arith, h)

    cleared : is_clear db.kyc_status v ≡ true → is_approved v.account db.kyc_status ≡ true
    cleared c = ground arith
