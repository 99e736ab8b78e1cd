-- ===== src/Database/Rows.antt =====
-- The rows of prisma/schema.prisma. Ids are numbers (the code only compares them), times are
-- milliseconds, money columns are cents, take rates are ten-thousandths (`Decimal(5, 4)`).
-- Text columns that only ever hold one of a few words are enumerations.
use samy.Prelude.{ℕ, Bool, true, false, Option, List, String}
use samy.Prelude.Int.{ℤ}
use samy.Database.Accounts.{Account, Group}

pub data Role : Type 0 where
  client model admin : Role

pub data UserStatus : Type 0 where
  active suspended pending_verification : UserStatus

pub data CallStatus : Type 0 where
  requested active ended : CallStatus

pub data EndReason : Type 0 where
  rejected timeout hangup_client hangup_model panic no_credits : EndReason

pub data RechargeStatus : Type 0 where
  pending paid failed expired : RechargeStatus

pub data PayoutStatus : Type 0 where
  pending processing paid failed : PayoutStatus

pub data EntryType : Type 0 where
  recarga recarga_offset consumo_min ganho_min comissao presente ganho_presente : EntryType
  saque saque_offset saque_estorno saque_estorno_offset seed : EntryType

-- `idempotencyRef` is the text `${transactionGroup}#${i}`: the group with the index.
pub record LedgerEntry : Type 0 where
  pub account : Account
  pub entry_type : EntryType
  pub amount : ℤ
  pub transaction_group : Group
  pub idempotency_index : ℕ

pub record Payout : Type 0 where
  pub id : ℕ
  pub account : Account
  pub amount : ℤ
  pub status : PayoutStatus
  pub pix_key : String
  pub created_at : ℕ
  pub processed_at : Option ℕ
  pub processing_at : Option ℕ

pub record KycStatus : Type 0 where
  pub account : Account
  pub approved : Bool

pub record User : Type 0 where
  pub id : ℕ
  pub role : Role
  pub provider : String
  pub provider_subject : String
  pub email : String
  pub display_name : String
  pub status : UserStatus
  pub created_at : ℕ

pub record ModelProfile : Type 0 where
  pub user_id : ℕ
  pub stage_name : String
  pub bio : Option String
  pub price_per_minute : ℤ
  pub tags : List String
  pub voice_preview_url : Option String
  pub take_rate : Option ℤ
  pub created_at : ℕ

pub record Call : Type 0 where
  pub id : ℕ
  pub client_user_id : ℕ
  pub model_user_id : ℕ
  pub status : CallStatus
  pub end_reason : Option EndReason
  pub price_per_minute_snapshot : ℤ
  pub room_name : Option ℕ
  pub requested_at : ℕ
  pub started_at : Option ℕ
  pub ended_at : Option ℕ
  pub billed_minutes : ℕ

pub record Recharge : Type 0 where
  pub id : ℕ
  pub user_id : ℕ
  pub amount : ℤ
  pub status : RechargeStatus
  pub psp_charge_id : Option String
  pub qr_text : Option String
  pub expires_at : Option ℕ
  pub created_at : ℕ
  pub paid_at : Option ℕ

pub record GiftType : Type 0 where
  pub id : ℕ
  pub name : String
  pub price_credits : ℤ
  pub active : Bool

pub record Gift : Type 0 where
  pub id : ℕ
  pub client_user_id : ℕ
  pub model_user_id : ℕ
  pub gift_type_id : ℕ
  pub price_snapshot : ℤ

pub data RevokedReason : Type 0 where
  rotated logout security_reset : RevokedReason

pub record RefreshToken : Type 0 where
  pub user_id : ℕ
  pub token_hash : String
  pub expires_at : ℕ
  pub revoked_at : Option ℕ
  pub revoked_reason : Option RevokedReason

pub data VerificationStatus : Type 0 where
  pending approved rejected : VerificationStatus

pub record KycVerification : Type 0 where
  pub id : ℕ
  pub account : Account
  pub user_id : ℕ
  pub status : VerificationStatus
  pub provider_ref : String
  pub client_token : String
  pub session_expires_at : ℕ
  pub reason : Option String
  pub created_at : ℕ
  pub resolved_at : Option ℕ

pub record Favorite : Type 0 where
  pub client_user_id : ℕ
  pub model_user_id : ℕ

-- A report's status is the text of the column, since `listOpen` takes any text for it.
pub record Report : Type 0 where
  pub id : ℕ
  pub reporter_user_id : ℕ
  pub reported_user_id : ℕ
  pub call_id : Option ℕ
  pub reason : String
  pub details : Option String
  pub status : String
  pub created_at : ℕ
  pub resolved_at : Option ℕ

-- A key `presence:model:${id}` with the time at which it expires.
pub record PresenceKey : Type 0 where
  pub model_id : ℕ
  pub expires_at : ℕ

abbrev pub is_model : Role → Bool
is_model Role.model = true
is_model _ = false

abbrev pub is_active_user : UserStatus → Bool
is_active_user UserStatus.active = true
is_active_user _ = false

abbrev pub is_requested : CallStatus → Bool
is_requested CallStatus.requested = true
is_requested _ = false

abbrev pub is_active : CallStatus → Bool
is_active CallStatus.active = true
is_active _ = false

abbrev pub is_ended : CallStatus → Bool
is_ended CallStatus.ended = true
is_ended _ = false

abbrev pub is_pending : RechargeStatus → Bool
is_pending RechargeStatus.pending = true
is_pending _ = false

abbrev pub is_paid : RechargeStatus → Bool
is_paid RechargeStatus.paid = true
is_paid _ = false

abbrev pub is_pending_payout : PayoutStatus → Bool
is_pending_payout PayoutStatus.pending = true
is_pending_payout _ = false

abbrev pub is_processing : PayoutStatus → Bool
is_processing PayoutStatus.processing = true
is_processing _ = false
