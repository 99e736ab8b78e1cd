-- ===== src/Examples.antt =====
-- A small platform for the witnesses: a client with credits, a model with a price, a call between
-- them, a recharge and a payout.
mod Money
mod Minutes
mod Histories
mod People
mod Web
use samy.Prelude.{ℕ, true, none, some, List, [], ◌∷◌, ◌++◌}
use samy.Prelude.Int.{ℤ, pos, negsuc}
use samy.Database.Accounts.{Account, Group}
use samy.Database.Rows.{
  Call, CallStatus, EntryType, GiftType, KycStatus, LedgerEntry, ModelProfile, Payout, PayoutStatus,
  PresenceKey, Recharge, RechargeStatus, Role, User, UserStatus,
}
use samy.Database.{Db, empty_db}
use samy.Ledger.{LedgerEntryInput, rows_from}
use samy.Ledger.Solvency.{outside_entries}
use samy.Ranking.{Tier, TierRow}
use samy.Calls.{new_call}
use samy.Payout.{new_payout}
use samy.Wallet.{new_recharge}

abbrev pub bronze_row : TierRow
bronze_row = record { tier = Tier.bronze; min = pos 0; rate = pos 3000 }

abbrev pub prata_row : TierRow
prata_row = record { tier = Tier.prata; min = pos 50000; rate = pos 2500 }

abbrev pub two_tiers : List TierRow
two_tiers = bronze_row ∷ prata_row ∷ []

abbrev pub ana : User
ana = record {
  id = 1;
  role = Role.client;
  provider = "apple";
  provider_subject = "sub-1";
  email = "ana@example.com";
  display_name = "Ana";
  status = UserStatus.active;
  created_at = 0;
}

abbrev pub bia : User
bia = record ana { id = 2; role = Role.model; provider_subject = "sub-2"; display_name = "Bia" }

abbrev pub bia_profile : ModelProfile
bia_profile = record {
  user_id = 2;
  stage_name = "Bia";
  bio = none;
  price_per_minute = pos 500;
  tags = [];
  voice_preview_url = none;
  take_rate = none;
  created_at = 0;
}

-- 12.00 for the client and 80.00 for the model, both from outside.
abbrev pub client_credit : List LedgerEntryInput
client_credit =
    outside_entries (Account.client 1) EntryType.recarga EntryType.recarga_offset (pos 1200)
      (negsuc 1199)

abbrev pub model_credit : List LedgerEntryInput
model_credit =
    outside_entries (Account.model 2) EntryType.ganho_min EntryType.seed (pos 8000) (negsuc 7999)

abbrev pub funded : List LedgerEntry
funded =
    rows_from 0 (Group.dev_earn (Account.model 2) 0) model_credit
    ++ (rows_from 0 (Group.recharge 1) client_credit ++ [])

abbrev pub ringing : Call
ringing = new_call 7 1 2 (pos 500) 1000

abbrev pub talking : Call
talking = record ringing { status = CallStatus.active; room_name = some 7; started_at = some 2000 }

abbrev pub open_recharge : Recharge
open_recharge = record (new_recharge 3 1 (pos 2500) 0) {
  psp_charge_id = some "charge-3";
  qr_text = some "qr";
  expires_at = some 900000;
}

abbrev pub base_db : Db
base_db = record empty_db {
  ledger = funded;
  kyc_status = record { account = Account.model 2; approved = true } ∷ [];
  users = ana ∷ bia ∷ [];
  profiles = bia_profile ∷ [];
  gift_types = record { id = 4; name = "rose"; price_credits = pos 300; active = true } ∷ [];
  recharges = open_recharge ∷ [];
  presence = record { model_id = 2; expires_at = 60000 } ∷ [];
}

abbrev pub ringing_db : Db
ringing_db = record base_db { calls = ringing ∷ [] }

abbrev pub talking_db : Db
talking_db = record base_db { calls = talking ∷ [] }

-- 60.00 that the model asked for, already paid out by another worker.
abbrev pub asked_payout : Payout
asked_payout = new_payout 5 (Account.model 2) (pos 6000) "bia@pix" 100

abbrev pub paid_payout : Payout
paid_payout = record asked_payout {
  status = PayoutStatus.paid;
  processing_at = some 200;
  processed_at = some 300;
}
