-- ===== src/Database.antt =====
-- The state that the services share: the tables of prisma/schema.prisma and the presence keys of
-- src/redis/redis.service.ts, and the form of a service call. A table is the list of its rows; a
-- query reads the list, `create` puts a row in front. A call that raises keeps what it had
-- written, unless a `transaction` rolls it back.
pub mod Accounts
pub mod Rows
pub mod Queries
use samy.Prelude.{Bool, Option, none, some, List, [], String, if◌then◌else◌}
use Rows.{
  LedgerEntry, Payout, KycStatus, User, ModelProfile, Call, Recharge, GiftType, Gift, RefreshToken,
  KycVerification, Favorite, Report, PresenceKey,
}

pub record Db : Type 0 where
  pub ledger : List LedgerEntry
  pub payouts : List Payout
  pub kyc_status : List KycStatus
  pub users : List User
  pub profiles : List ModelProfile
  pub calls : List Call
  pub recharges : List Recharge
  pub gift_types : List GiftType
  pub gifts : List Gift
  pub refresh_tokens : List RefreshToken
  pub kyc_verifications : List KycVerification
  pub favorites : List Favorite
  pub reports : List Report
  pub presence : List PresenceKey

abbrev pub empty_db : Db
empty_db = record {
  ledger = [];
  payouts = [];
  kyc_status = [];
  users = [];
  profiles = [];
  calls = [];
  recharges = [];
  gift_types = [];
  gifts = [];
  refresh_tokens = [];
  kyc_verifications = [];
  favorites = [];
  reports = [];
  presence = [];
}

-- The exceptions that reach a caller: the HTTP ones with their messages, and Prisma's P2002
-- (unique constraint) and P2025 (record to update not found); `internal` is any other failure.
pub data Error : Type 0 where
  bad_request unauthorized forbidden not_found conflict : String → Error
  payment_required service_unavailable : String → Error
  unique_violation record_not_found internal : Error

pub data Result {ℓ} (A : Type ℓ) : Type ℓ where
  ok : A → Result A
  err : Error → Result A

abbrev pub Action : Type 0 → Type 0
Action A = Db → Result A × Db

module _ {A : Type 0} where
  abbrev pub pure : A → Action A
  pure a db = (ok a, db)

  abbrev pub raise : Error → Action A
  raise e db = (err e, db)

  abbrev pub query : (Db → A) → Action A
  query f db = (ok (f db), db)

  abbrev pub or_raise : Option A → Error → Action A
  or_raise none e = raise e
  or_raise (some a) e = pure a

  -- `$transaction`: an exception takes every write back.
  abbrev pub transaction : Action A → Action A
  transaction m db = let (r, db') = m db in elim r [ ok a ↦ (ok a, db') | err e ↦ (err e, db) ]

-- `try { … } catch { … }`, the handler given the error.
abbrev pub attempt : {A : Type 0} → Action A → (Error → Action A) → Action A
attempt m handler db = let (r, db') = m db in elim r [ ok a ↦ (ok a, db') | err e ↦ handler e db' ]

infixl 5 ◌>>=◌ ◌>>◌
abbrev pub ◌>>=◌ : {A B : Type 0} → Action A → (A → Action B) → Action B
◌>>=◌ m f db = let (r, db') = m db in elim r [ ok a ↦ f a db' | err e ↦ (err e, db') ]

abbrev pub ◌>>◌ : {A B : Type 0} → Action A → Action B → Action B
m >> k = m >>= λ _. k

abbrev pub raise_if : Bool → Error → Action (Unit {0})
raise_if c e db = (if c then err e else ok tt, db)

abbrev pub modify : (Db → Db) → Action (Unit {0})
modify f db = (ok tt, f db)
