-- ===== src/Client/Kyc.antt =====
-- What web/src/model/KycPanel.tsx tells a model of withdrawing, against what the payouts answer
-- her.
use mathlib.Core.Path.{subst}
use samy.Prelude.{
  ℕ, ◌≡◌, ◌≢◌, sym, ap, ◌∙◌, Bool, true, false, Option, none, some, List, [], ◌∷◌, ◌⊎◌, arith,
  String, Option-cases, inl, inr,
}
use samy.Prelude.Int.{ℤ}
use samy.Database.Accounts.{Account}
use samy.Database.Rows.{KycVerification, Role}
use samy.Database.{Db, Result, ok, err, forbidden}
use samy.Access.{AuthUser, guarded}
use samy.Payout.{is_approved}
use samy.Endpoints.{request}
use samy.Endpoints.Lists.{kyc_me}
use samy.Verification.{get_latest}
use samy.Verification.Cleared.{IsCleared, is_approved_status}
use samy.Verification.Runs.{KycOp, get_latest-approved, kyc_run, kyc_run-IsCleared}
use samy.Client.Messages.{Means, Message, error_msg, error_msg-Means, failure_of, LetsIn}

-- `status.data`: the answer of `/kyc/me`, where there is one.
abbrev pub data_of : Result (Option KycVerification) → Option KycVerification
data_of (ok v) = v
data_of (err e) = none

-- `s === 'APPROVED'`: the panel says that the identity is verified and that she may withdraw.
abbrev pub says_verified : Option KycVerification → Bool
says_verified none = false
says_verified (some v) = is_approved_status v.status

answered :
    (r : Result (Option KycVerification)) (v : KycVerification)
    → data_of r ≡ some v
    → r ≡ ok (some v)
answered (ok o) v e = ap ok e
answered (err x) v e = cc

unsaid : (o : Option KycVerification) → o ≡ none → says_verified o ≡ true → ⊥
unsaid none e h = cc
unsaid (some v) e h = cc

clash : (b : Bool) → b ≡ true → b ≡ false → ⊥
clash b h k = cc

-- A user who is let in with an approved KYC is in neither of the cases of the message on it.
unbarred :
    (bearer : Option (Option ℕ)) (db : Db) (user : AuthUser)
    → LetsIn bearer db user
    → is_approved (Account.model user.id) db.kyc_status ≡ true
    → ((who : AuthUser) × LetsIn bearer db who
        × (is_approved (Account.model who.id) db.kyc_status ≡ false))
      ⊎ ((why : String) × (guarded (Role.model ∷ []) bearer db ≡ (err (forbidden why), db)))
    → ⊥
unbarred bearer db user e approved (inl (who, e', lacking)) =
    clash _ approved (ground (arith, e, e', lacking))
unbarred bearer db user e approved (inr (why, e')) = grind arith

kyc_me-LetsIn :
    (bearer : Option (Option ℕ)) (db : Db) (user : AuthUser)
    → LetsIn bearer db user
    → kyc_me bearer db ≡ get_latest (Account.model user.id) db
unfolding kyc_me
kyc_me-LetsIn bearer db user e = ground (arith, e)

-- After any sessions and results of verifications in a database where references are unique and
-- approved verifications have approved accounts: where the panel, by the answer of `/kyc/me` to a user
-- whom the guards let in, says that she may withdraw,
-- no payout that she asks for with a PIX key and an amount is refused with the message on KYC.
-- (The guards let her in, so she is not suspended.)
pub says_verified-no_refusal :
    (ops : List KycOp) (min_payout : ℤ) (id : ℕ) (bearer : Option (Option ℕ)) (user : AuthUser)
    (key : String) (amount : ℤ) (now : ℕ) (db : Db)
    → IsCleared db
    → LetsIn bearer (kyc_run ops db) user
    → says_verified (data_of (kyc_me bearer (kyc_run ops db)).0) ≡ true
    → error_msg
        (failure_of (request min_payout id bearer (some key) (some amount) now (kyc_run ops db)).0)
      ≢ Message.needs_kyc
says_verified-no_refusal ops min_payout id bearer user key amount now db k enters heard refused =
    let says =
      subst (λ r. says_verified (data_of r.0) ≡ true)
        (kyc_me-LetsIn bearer (kyc_run ops db) user enters) heard in
    elim (Option-cases (data_of (get_latest (Account.model user.id) (kyc_run ops db)).0)) [
      | inl e ↦ absurd (unsaid _ e says)
      | inr (v, e) ↦
          let approved =
            get_latest-approved (Account.model user.id) (kyc_run ops db) v
              (kyc_run-IsCleared ops db k)
              (answered (get_latest (Account.model user.id) (kyc_run ops db)).0 v e)
              (sym (ap says_verified e) ∙ says) in
          let barred =
            subst (Means min_payout bearer amount (kyc_run ops db)) refused
              (error_msg-Means min_payout id bearer key amount now (kyc_run ops db)) in
          absurd (unbarred bearer (kyc_run ops db) user enters approved barred)
    ]
