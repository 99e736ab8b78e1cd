-- ===== src/Examples/Web.antt =====
-- The web client's theorems at concrete inputs.
use samy.Prelude.{
  ℕ, suc, ◌+◌, ◌%◌, ◌≡◌, ◌≢◌, refl, true, false, Option, none, some, List, [], ◌∷◌, String, arith,
  ◌==◌, if◌then◌else◌, any, count,
}
use samy.Prelude.Int.{pos}
use samy.Database.Accounts.{Account}
use samy.Database.Rows.{RefreshToken, Role, User, UserStatus}
use samy.Database.{Db, ok}
use samy.Access.{AuthUser, guarded, refresh}
use samy.Auth.{has_hash, is_live, new_token, rotate_read, rotate_row}
use samy.Auth.Race.{rotate_row-both}
use samy.Calls.{is_online}
use samy.Client.{RefreshResult, Response, Session, api_fetch, store_reply}
use samy.Client.Refresh.{Ends, api_fetch-Ends}
use samy.Client.Race.{refresh-signs_out, reply_of}
use samy.Client.Hue.{base_31, hue_from_id, hue_from_id-base_31}
use samy.Client.Presence.{beat_all, beat_all-continuous, beat_at}
use samy.Client.Messages.{Means, Message, error_msg, error_msg-Means, failure_of, LetsIn}
use samy.Verification.{Outcome, Session as KycSession, apply_result, get_latest, start}
use samy.Verification.Runs.{KycOp, kyc_run}
use samy.Client.Kyc.{data_of, says_verified, says_verified-no_refusal}
use samy.Endpoints.{request}
use samy.Endpoints.Lists.{kyc_me}
use samy.Marketplace.{ModelCard, candidates}
use samy.Marketplace.Pages.{IsOrdered}
use samy.Marketplace.Pages.Cover.{collect, collect-partitions, is_card_of, is_profile_of}
use samy.Examples.{base_db, ana, bia}

abbrev plain : String → String
plain s = s

abbrev ana_session : Session
ana_session = record {
  access_token = "access-1";
  refresh_token = "token-1";
  user = record {
    id = 1;
    role = Role.client;
    status = UserStatus.active;
    email = "ana@example.com";
    display_name = "Ana";
  };
}

-- A server that takes the renewed access token only; its world counts the requests.
abbrev answer : Option String → ℕ → ℕ × Option (Response ℕ)
answer token w =
    (suc w, some (record { status = if w == 0 then 401 else 200; body = 7; message = "" }))

abbrev renew : String → ℕ → ℕ × Option (Response RefreshResult)
renew token w = (
  suc w,
  some (record {
    status = 201;
    body = record { access_token = "access-2"; refresh_token = "token-2" };
    message = "";
  }),
)

api_fetch-Ends_example : Ends (some ana_session) (api_fetch answer renew true 0 (some ana_session))
api_fetch-Ends_example = api_fetch-Ends answer renew true 0 (some ana_session)

abbrev ana_token : RefreshToken
ana_token = new_token 1 "token-1" 9000

abbrev signed_db : Db
signed_db = record base_db { refresh_tokens = ana_token ∷ [] }

abbrev sign : User → String
sign u = u.email

refresh-signs_out_example :
    let one = refresh plain 500 "token-1" "token-2" 100 signed_db in
    let two = refresh plain 500 "token-1" "token-3" 101 one.1 in
    (one.0 ≡ ok (ana, "token-2"))
    × (store_reply ana_session (reply_of sign two.0) ≡ none)
    × (any (is_live 1) two.1.refresh_tokens ≡ false)
refresh-signs_out_example =
    refresh-signs_out plain sign 500 ana_session "token-2" "token-3" 100 101 signed_db ana_token ana
      refl refl (omega arith) (omega arith) refl refl

-- The codes of `ab`.
hue_from_id-base_31_example : hue_from_id (97 ∷ 98 ∷ []) ≡ base_31 0 (97 ∷ 98 ∷ []) % 360
hue_from_id-base_31_example = hue_from_id-base_31 (97 ∷ 98 ∷ [])

abbrev late_by : ℕ → ℕ
late_by n = 300

beat_all-continuous_example :
    is_online 101300 2 (beat_all ((2, beat_at 1000 4 + 300) ∷ (3, 90000) ∷ []) base_db).presence
    ≡ true
beat_all-continuous_example =
    beat_all-continuous 1000 4 2 101300 late_by ((3, 90000) ∷ []) base_db (omega arith)
      (omega arith, tt) (omega arith)

abbrev bia_token : Option (Option ℕ)
bia_token = some (some 2)

error_msg-Means_example : Means (pos 5000) bia_token (pos 900000) base_db (
    error_msg (
      failure_of
        (request (pos 5000) 5 bia_token (some "bia@pix") (some (pos 900000)) 100 base_db).0))
error_msg-Means_example = error_msg-Means (pos 5000) 5 bia_token "bia@pix" (pos 900000) 100 base_db

abbrev suspended_bia : User
suspended_bia = record bia { status = UserStatus.suspended }

abbrev suspended_db : Db
suspended_db = record base_db { users = ana ∷ suspended_bia ∷ [] }

signed_free : any (has_hash "token-2") signed_db.refresh_tokens ≡ false
signed_free = refl

rotate_row-both_example :
    let read = rotate_read plain "token-1" 100 signed_db in
    let one = rotate_row plain 500 ana_token "token-2" 100 signed_db in
    let two = rotate_row plain 500 ana_token "token-3" 101 one.1 in
    (read ≡ (ok ana_token, signed_db))
    × (one.0 ≡ ok (1, "token-2"))
    × (two.0 ≡ ok (1, "token-3"))
    × (rest : List RefreshToken) × (two.1.refresh_tokens
        ≡ new_token 1 "token-3" 601 ∷ new_token 1 "token-2" 600 ∷ rest)
rotate_row-both_example =
    rotate_row-both plain 500 "token-1" "token-2" "token-3" 100 101 signed_db ana_token refl refl
      (omega arith) signed_free refl refl refl

collect-partitions_example :
    (cards : List ModelCard) × (collect [] 10 1 0 1 Role.client 500 base_db ≡ (ok cards, base_db))
    × IsOrdered cards
    × (count (is_card_of 2) cards ≡ count (is_profile_of 2) (candidates [] base_db))
collect-partitions_example =
    collect-partitions [] 10 1 1 Role.client 500 2 base_db (omega arith) (omega arith) (omega arith)

abbrev unverified_db : Db
unverified_db = record base_db { kyc_status = [] }

abbrev open_session : Account → KycSession
open_session account = record {
  provider_ref = "ref-8";
  client_token = "token-8";
  expires_at = 90000;
}

-- A session and its approval.
abbrev verified : List KycOp
verified =
    KycOp.starts open_session 8 (Account.model 2) 2 1000
    ∷ KycOp.results "ref-8" Outcome.approved none 2000
    ∷ []

verified_says : says_verified (data_of (kyc_me bia_token (kyc_run verified unverified_db)).0) ≡ true
unfolding kyc_run start apply_result get_latest kyc_me guarded
verified_says = refl

abbrev bia_auth : AuthUser
bia_auth = record { id = 2; role = Role.model; status = UserStatus.active }

verified_enters : LetsIn bia_token (kyc_run verified unverified_db) bia_auth
unfolding kyc_run start apply_result guarded
verified_enters = refl

says_verified-no_refusal_example :
    error_msg (
      failure_of
        (request
          (pos 5000)
          5
          bia_token
          (some "bia@pix")
          (some (pos 6000))
          3000
          (kyc_run verified unverified_db)).0)
    ≢ Message.needs_kyc
says_verified-no_refusal_example =
    says_verified-no_refusal verified (pos 5000) 5 bia_token bia_auth "bia@pix" (pos 6000) 3000
      unverified_db (record { refs = tt; clear = tt }) verified_enters verified_says
