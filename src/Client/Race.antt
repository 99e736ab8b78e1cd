-- ===== src/Client/Race.antt =====
-- Two requests of one page whose access token has expired at the same time: both read the same
-- session in `tryRefresh` (web/src/lib/api-client.ts) before either has stored its reply, and the
-- server (src/auth/auth.service.ts, `refresh`) serves one after the other. Where the second reads
-- the token before the first has written it, see Auth/Race.antt.
use samy.Prelude.{
  ℕ, ◌≡◌, ◌≤◌, refl, true, false, Option, none, some, String, arith, any, find_first,
}
use samy.Database.Rows.{RefreshToken, RevokedReason, User}
use samy.Database.{
  Db, Error, Result, ok, err, bad_request, unauthorized, forbidden, not_found, conflict,
  payment_required, service_unavailable,
}
use samy.Database.Queries.{find_user}
use samy.Auth.{has_hash, is_live, is_revoked, revoke_as}
use samy.Auth.Rotation.{rotate_refresh-replaces, rotate_refresh-reuse, rotated_db}
use samy.Access.{allowed, refresh}
use samy.Client.{RefreshResult, Response, Session, store_reply}

-- The status that an exception reaches the client with; an unknown one is a 500.
abbrev pub status_of : Error → ℕ
status_of (bad_request _) = 400
status_of (unauthorized _) = 401
status_of (payment_required _) = 402
status_of (forbidden _) = 403
status_of (not_found _) = 404
status_of (conflict _) = 409
status_of (service_unavailable _) = 503
status_of _ = 500

-- The reply of `POST /auth/refresh`; `sign` makes the access token of a user.
abbrev pub reply_of : (User → String) → Result (User × String) → Option (Response RefreshResult)
reply_of sign (ok (user, token)) = some (record {
  status = 201;
  body = record { access_token = sign user; refresh_token = token };
  message = "";
})
reply_of sign (err e) = some (record {
  status = status_of e;
  body = record { access_token = ""; refresh_token = "" };
  message = "";
})

first_refresh :
    (hash : String → String) (ttl : ℕ) (old raw : String) (now : ℕ) (db : Db) (row : RefreshToken)
    (user : User)
    → find_first (has_hash (hash old)) db.refresh_tokens ≡ some row
    → is_revoked row ≡ false
    → now ≤ row.expires_at
    → any (has_hash (hash raw)) db.refresh_tokens ≡ false
    → allowed (find_user row.user_id db) ≡ some user
    → refresh hash ttl old raw now db ≡ (ok (user, raw), rotated_db hash ttl row raw now db)
unfolding refresh
first_refresh hash ttl old raw now db row user e live fresh unused who =
    ground (arith, rotate_refresh-replaces hash ttl old raw now db row e live fresh unused)

second_refresh :
    (hash : String → String) (ttl : ℕ) (old raw : String) (now : ℕ) (db : Db) (row : RefreshToken)
    → find_first (has_hash (hash old)) db.refresh_tokens ≡ some row
    → is_revoked row ≡ true
    → now ≤ row.expires_at
    → ((refresh hash ttl old raw now db).0 ≡ err (unauthorized "Refresh token reuse detected"))
      × (any (is_live row.user_id) (refresh hash ttl old raw now db).1.refresh_tokens ≡ false)
unfolding refresh
second_refresh hash ttl old raw now db row e revoked fresh =
    let (refused, gone) = rotate_refresh-reuse hash ttl old raw now db row e revoked fresh in
    (ground (arith, refused), ground (arith, refused, gone))

-- Two refreshes with the same token of a live session of a user that is allowed, where the server
-- begins the second after it has ended the first: the first succeeds with the new token, the second
-- is refused as a reuse, its reply makes the client drop the session,
-- and at the server no session of the user is left, the new one included.
pub refresh-signs_out :
    (hash : String → String) (sign : User → String) (ttl : ℕ) (s : Session) (raw raw' : String)
    (now later : ℕ) (db : Db) (row : RefreshToken) (user : User)
    → find_first (has_hash (hash s.refresh_token)) db.refresh_tokens ≡ some row
    → is_revoked row ≡ false
    → now ≤ row.expires_at
    → later ≤ row.expires_at
    → any (has_hash (hash raw)) db.refresh_tokens ≡ false
    → allowed (find_user row.user_id db) ≡ some user
    → let one = refresh hash ttl s.refresh_token raw now db in
      let two = refresh hash ttl s.refresh_token raw' later one.1 in
      (one.0 ≡ ok (user, raw))
      × (store_reply s (reply_of sign two.0) ≡ none)
      × (any (is_live row.user_id) two.1.refresh_tokens ≡ false)
refresh-signs_out hash sign ttl s raw raw' now later db row user e live fresh fresh' unused who =
    let (_, found) =
      rotate_refresh-replaces hash ttl s.refresh_token raw now db row e live fresh unused in
    let (refused, gone) =
      second_refresh hash ttl s.refresh_token raw' later (rotated_db hash ttl row raw now db)
        (revoke_as RevokedReason.rotated now row) found refl fresh' in
    rw (first_refresh hash ttl s.refresh_token raw now db row user e live fresh unused who)
      (refl, rw refused refl, gone)
