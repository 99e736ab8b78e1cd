-- ===== src/Client.antt =====
-- The session of the web client: web/src/lib/session.ts, web/src/lib/api-client.ts and
-- web/src/auth/auth-context.tsx. The browser's storage holds a session or nothing (a text that
-- JSON.parse refuses reads as nothing). The network is a parameter: it takes a request in a world
-- and gives a reply, or nothing where `fetch` rejects.
pub mod Refresh
pub mod Hue
pub mod Presence
pub mod Messages
pub mod Kyc
pub mod Race
pub mod CallScreen
use text.Mathlib.Text.{◌==◌ as str_eq}
use samy.Prelude.{
  ℕ, Bool, true, false, not, ◌&&◌, ◌==◌, Option, none, some, String, ltb, leb, if◌then◌else◌,
}
use samy.Database.Rows.{Role, UserStatus}

-- `SessionUser` of web/src/types/api.ts.
pub record SessionUser : Type 0 where
  pub id : ℕ
  pub role : Role
  pub status : UserStatus
  pub email : String
  pub display_name : String

pub record Session : Type 0 where
  pub access_token : String
  pub refresh_token : String
  pub user : SessionUser

-- What localStorage holds under `samy.session`.
abbrev pub Storage : Type 0
Storage = Option Session

-- `RefreshResult`.
pub record RefreshResult : Type 0 where
  pub access_token : String
  pub refresh_token : String

-- A `Response`: its status and its body, or the message that `parse` finds in it.
pub record Response (A : Type 0) : Type 0 where
  pub status : ℕ
  pub body : A
  pub message : String

-- `res.ok`.
abbrev pub is_ok : ℕ → Bool
is_ok status = leb 200 status && ltb status 300

-- How `apiFetch` ends: with data, with an `ApiError`, or with what `fetch` rejected with.
pub data Fetched (A : Type 0) : Type 0 where
  loaded : A → Fetched A
  not_authenticated : Fetched A
  api_error : ℕ → String → Fetched A
  network_error : Fetched A

abbrev pub parse : {A : Type 0} → Response A → Fetched A
parse r = if is_ok r.status then loaded r.body else api_error r.status r.message

abbrev pub parse_reply : {A : Type 0} → Option (Response A) → Fetched A
parse_reply none = network_error
parse_reply (some r) = parse r

abbrev pub access_of : Bool → Storage → Option String
access_of true (some s) = some s.access_token
access_of _ _ = none

-- What `tryRefresh` writes when the reply is there: the rotated tokens, or nothing.
abbrev pub store_reply : Session → Option (Response RefreshResult) → Storage
store_reply s none = some s
store_reply s (some r) =
    if is_ok r.status
    then some
        (record s { access_token = r.body.access_token; refresh_token = r.body.refresh_token })
    else none

module _ {W A : Type 0} (send : Option String → W → W × Option (Response A))
    (refresh : String → W → W × Option (Response RefreshResult)) where
  -- The second try, with the token that the refresh gave.
  abbrev pub retry : RefreshResult → W → Storage → Fetched A × (W × Storage)
  retry tokens w storage =
      let (w', reply) = send (some tokens.access_token) w in (parse_reply reply, (w', storage))

  -- What follows the reply to the refresh of a session.
  abbrev pub after_refresh :
      Session → W → Option (Response RefreshResult) → Fetched A × (W × Storage)
  after_refresh s w none = (network_error, (w, some s))
  after_refresh s w (some r) =
      -- `!newToken`: null where the refresh is refused, or an empty text
      if is_ok r.status && not (str_eq r.body.access_token "")
      then retry r.body w (store_reply s (some r))
      else (not_authenticated, (w, store_reply s (some r)))

  -- `tryRefresh` and what `apiFetch` makes of its result.
  abbrev pub refresh_and_retry : W → Storage → Fetched A × (W × Storage)
  refresh_and_retry w none = (not_authenticated, (w, none))
  refresh_and_retry w (some s) =
      let (w', reply) = refresh s.refresh_token w in after_refresh s w' reply

  -- What `apiFetch` makes of its first reply.
  abbrev pub after_first : Bool → W → Storage → Option (Response A) → Fetched A × (W × Storage)
  after_first use_auth w storage none = (network_error, (w, storage))
  after_first use_auth w storage (some r) =
      if r.status == 401 && use_auth then refresh_and_retry w storage else (parse r, (w, storage))

  unfoldable pub api_fetch : Bool → W → Storage → Fetched A × (W × Storage)
  api_fetch use_auth w storage =
      let (w', reply) = send (access_of use_auth storage) w in after_first use_auth w' storage reply

-- `AuthResult`.
pub record AuthResult : Type 0 where
  pub access_token : String
  pub refresh_token : String
  pub user : SessionUser

-- `login` and `devLogin`: a session is stored where the request succeeds; it goes without a token.
abbrev pub store_login : Fetched AuthResult → Storage → Storage
store_login (loaded r) storage =
    some (record { access_token = r.access_token; refresh_token = r.refresh_token; user = r.user })
store_login _ storage = storage

-- `logout`: the server is told, whatever it answers, and the session goes.
unfoldable pub end_session : {W : Type 0} → (String → W → W) → W → Storage → W × Storage
end_session tell w none = (w, none)
end_session tell w (some s) = (tell s.refresh_token w, none)
