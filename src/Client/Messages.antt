-- ===== src/Client/Messages.antt =====
-- What web/src/model/EarningsPanel.tsx says of a payout that was asked for, by what the server
-- (src/payout/payout.controller.ts) answered.
use samy.Prelude.{
  ℕ, ◌≡◌, ◌⊎◌, ◌==◌, true, false, Option, none, some, String, arith, [], ◌∷◌, refl, Option-cases,
  Bool-cases, if◌then◌else◌, inl, inr,
}
use samy.Prelude.Int.{ℤ, ltb_ℤ}
use samy.Database.Accounts.{Account}
use samy.Database.Rows.{Payout, Role, User}
use samy.Database.{Db, Error, Result, ok, err, forbidden, unauthorized}
use samy.Database.Queries.{find_user}
use samy.Ledger.{balance}
use samy.Payout.{is_approved, request_payout}
use samy.Payout.Request
use samy.Payout.Request.{RequestOutcome, request_payout-outcome}
use samy.Access.{AuthUser, guarded, is_suspended, may_enter}
use samy.Endpoints.{request}
use samy.Client.Race.{status_of}

-- The error of a mutation: an `ApiError` with its status, or another.
pub data Failure : Type 0 where
  api : ℕ → Failure
  other : Failure

pub data Message : Type 0 where
  silent needs_kyc low_or_short failed : Message

-- `errorMsg`.
abbrev pub error_msg : Option Failure → Message
error_msg none = Message.silent
error_msg (some Failure.other) = Message.failed
error_msg (some (Failure.api status)) =
    if status == 403
    then Message.needs_kyc
    else if status == 400
    then Message.low_or_short
    else Message.failed

abbrev pub failure_of {ℓ} : {A : Type ℓ} → Result A → Option Failure
failure_of (ok a) = none
failure_of (err e) = some (Failure.api (status_of e))

-- What the guards of `PayoutController` make of a request: they let a user through, or raise 401,
-- or 403.
abbrev pub LetsIn : Option (Option ℕ) → Db → AuthUser → Type 0
LetsIn bearer db user = guarded (Role.model ∷ []) bearer db ≡ (ok user, db)

pub data GuardOutcome (bearer : Option (Option ℕ)) (db : Db) : Type 0 where
  is_let_in : (user : AuthUser) → LetsIn bearer db user → GuardOutcome bearer db
  is_unknown :
      (why : String)
      → guarded (Role.model ∷ []) bearer db ≡ (err (unauthorized why), db)
      → GuardOutcome bearer db
  is_barred :
      (why : String)
      → guarded (Role.model ∷ []) bearer db ≡ (err (forbidden why), db)
      → GuardOutcome bearer db

auth_user : User → AuthUser
auth_user u = record { id = u.id; role = u.role; status = u.status }

pub guarded-outcome : (bearer : Option (Option ℕ)) (db : Db) → GuardOutcome bearer db
unfolding guarded auth_user
guarded-outcome none db = is_unknown "Missing bearer token" refl
guarded-outcome (some none) db = is_unknown "Invalid access token" refl
guarded-outcome (some (some id)) db = elim (Option-cases (find_user id db)) [
  | inl e ↦ is_unknown "User not found" (ground arith)
  | inr (u, e) ↦ elim (Bool-cases (is_suspended u.status)) [
    | inl out ↦ is_barred "User suspended" (ground arith)
    | inr active ↦ elim (Bool-cases (may_enter (Role.model ∷ []) (some (auth_user u)))) [
      | inl enter ↦ is_let_in (auth_user u) (ground arith)
      | inr differs ↦ is_barred "Insufficient role" (ground arith)
    ]
  ]
]

-- Behind the guards, with a key and an amount, the request is the service's.
pub request-LetsIn :
    (min_payout : ℤ) (id : ℕ) (bearer : Option (Option ℕ)) (key : String) (amount : ℤ) (now : ℕ)
    (db : Db) (user : AuthUser)
    → LetsIn bearer db user
    → request min_payout id bearer (some key) (some amount) now db
      ≡ request_payout min_payout id (Account.model user.id) amount key now db
unfolding request
request-LetsIn min_payout id bearer key amount now db user e = ground (arith, e)

-- A request that the guards refuse is refused with their error.
request-refused :
    (min_payout : ℤ) (id : ℕ) (bearer : Option (Option ℕ)) (key : Option String) (amount : Option ℤ)
    (now : ℕ) (db : Db) (why : Error)
    → guarded (Role.model ∷ []) bearer db ≡ (err why, db)
    → request min_payout id bearer key amount now db ≡ (err why, db)
unfolding request
request-refused min_payout id bearer key amount now db why e = ground (arith, e)

-- What a message tells the model of her account and the amount.
abbrev pub Means : ℤ → Option (Option ℕ) → ℤ → Db → Message → Type 0
Means min_payout bearer amount db Message.silent =
    (user : AuthUser) × LetsIn bearer db user
    × (is_approved (Account.model user.id) db.kyc_status ≡ true)
    × (ltb_ℤ amount min_payout ≡ false)
    × (ltb_ℤ (balance (Account.model user.id) db.ledger) amount ≡ false)
Means min_payout bearer amount db Message.needs_kyc =
    ((user : AuthUser) × LetsIn bearer db user
      × (is_approved (Account.model user.id) db.kyc_status ≡ false))
    ⊎ ((why : String) × (guarded (Role.model ∷ []) bearer db ≡ (err (forbidden why), db)))
Means min_payout bearer amount db Message.low_or_short =
    (user : AuthUser) × LetsIn bearer db user
    × ((ltb_ℤ amount min_payout ≡ true)
        ⊎ (ltb_ℤ (balance (Account.model user.id) db.ledger) amount ≡ true))
Means min_payout bearer amount db Message.failed = Unit

-- A request with a PIX key and an amount that is read as a decimal: no message means that the
-- guards let the user in and the request was accepted, with KYC approved and an amount of at least
-- the minimum that the balance covers; the message on KYC, that she was let in and it is not
-- approved, or that a guard forbids the request, whatever her KYC; the message on the amount, that
-- she was let in and this is below the minimum or the balance below it.
pub error_msg-Means :
    (min_payout : ℤ) (id : ℕ) (bearer : Option (Option ℕ)) (key : String) (amount : ℤ) (now : ℕ)
    (db : Db)
    → Means min_payout bearer amount db
        (error_msg (failure_of (request min_payout id bearer (some key) (some amount) now db).0))
error_msg-Means min_payout id bearer key amount now db = elim (guarded-outcome bearer db) [
  | is_unknown why e ↦
      rw (request-refused min_payout id bearer (some key) (some amount) now db (unauthorized why) e)
        tt
  | is_barred why e ↦
      rw (request-refused min_payout id bearer (some key) (some amount) now db (forbidden why) e)
        (inr (why, e))
  | is_let_in user e ↦ rw (request-LetsIn min_payout id bearer key amount now db user e) (
      served user e
        (request_payout-outcome min_payout id (Account.model user.id) amount key now db))
]
  where
    served :
        (user : AuthUser)
        → LetsIn bearer db user
        → {r : Result Payout × Db}
        → RequestOutcome min_payout id (Account.model user.id) amount key now db r
        → Means min_payout bearer amount db (error_msg (failure_of r.0))
    served user e (Request.is_unapproved lacking) = inl (user, e, lacking)
    served user e (Request.is_below low) = (user, e, inl low)
    served user e (Request.is_short short) = (user, e, inr short)
    served user e (Request.is_taken used) = tt
    served user e (Request.is_clash used) = tt
    served user e (Request.is_accepted approved above enough free fresh) =
        (user, e, approved, above, enough)
