-- ===== src/Auth.antt =====
-- src/auth/token.service.ts (the refresh tokens) and src/users/users.service.ts. The hash function
-- and the random bytes of a new token are parameters; access tokens are the business of the
-- jsonwebtoken package.
pub mod Duration
pub mod Rotation
pub mod Race
use text.Mathlib.Text.{◌==◌ as str_eq}
use samy.Prelude.{
  ℕ, ◌+◌, Bool, true, false, ◌&&◌, ◌==◌, Option, none, some, List, [], ◌∷◌, String, ltb,
  if◌then◌else◌, any, find_first, find_many, update_many, sort_by, take,
}
use samy.Database.Accounts.{Account}
use samy.Database.Rows.{RefreshToken, RevokedReason, Role, User, UserStatus, is_model}
use samy.Database.{
  or_raise, raise_if, Db, Action, Error, Result, ok, err, unauthorized, not_found, record_not_found,
  unique_violation, pure, raise, raise_if, query, modify, ◌>>=◌, ◌>>◌,
}
use samy.Database.Queries.{find_user}

abbrev pub has_hash : String → RefreshToken → Bool
has_hash h t = str_eq t.token_hash h

abbrev pub is_revoked : RefreshToken → Bool
is_revoked t = elim t.revoked_at [ none ↦ false | some _ ↦ true ]

abbrev pub is_unrevoked : RefreshToken → Bool
is_unrevoked t = elim t.revoked_at [ none ↦ true | some _ ↦ false ]

-- `{ userId, revokedAt: null }`.
abbrev pub is_live : ℕ → RefreshToken → Bool
is_live user_id t = t.user_id == user_id && is_unrevoked t

abbrev pub revoke_as : RevokedReason → ℕ → RefreshToken → RefreshToken
revoke_as reason now t = record t { revoked_at = some now; revoked_reason = some reason }

abbrev pub new_token : ℕ → String → ℕ → RefreshToken
new_token user_id h expires_at = record {
  user_id = user_id;
  token_hash = h;
  expires_at = expires_at;
  revoked_at = none;
  revoked_reason = none;
}

unfoldable pub issue_refresh : (String → String) → ℕ → ℕ → String → ℕ → Action String
issue_refresh hash ttl user_id raw now = do
  raise_if (← query λ db. any (has_hash (hash raw)) db.refresh_tokens) unique_violation
  modify λ db. record db {
    refresh_tokens = new_token user_id (hash raw) (now + ttl) ∷ db.refresh_tokens;
  }
  pure raw

-- `rotateRefresh` is a read and one or two writes in statements of their own, with no transaction
-- around them: `rotate_read`, then `rotate_reused`, or `rotate_mark` and `issue_refresh`, all with
-- the row as it was read.
unfoldable pub rotate_read : (String → String) → String → ℕ → Action RefreshToken
rotate_read hash raw_token now = do
  row ←
      or_raise (← query λ db. find_first (has_hash (hash raw_token)) db.refresh_tokens)
        (unauthorized "Invalid refresh token")
  raise_if (ltb row.expires_at now) (unauthorized "Invalid refresh token")
  pure row

-- `if (row.revokedAt)`: every session of the user is revoked.
abbrev pub rotate_reused : ℕ → ℕ → Db → Db
rotate_reused user_id now db = record db {
  refresh_tokens =
      update_many (is_live user_id) (revoke_as RevokedReason.security_reset now) db.refresh_tokens;
}

-- `update({ where: { tokenHash } })`, without a guard on `revokedAt`.
abbrev pub rotate_mark : String → ℕ → Db → Db
rotate_mark token_hash now db = record db {
  refresh_tokens =
      update_many (has_hash token_hash) (revoke_as RevokedReason.rotated now) db.refresh_tokens;
}

-- What follows the read.
unfoldable pub rotate_row : (String → String) → ℕ → RefreshToken → String → ℕ → Action (ℕ × String)
unfolding issue_refresh
rotate_row hash ttl row raw now =
    if is_revoked row
    then (do
      modify (rotate_reused row.user_id now)
      raise (unauthorized "Refresh token reuse detected"))
    else (do
      modify (rotate_mark row.token_hash now)
      token ← issue_refresh hash ttl row.user_id raw now
      pure (row.user_id, token))

-- `rotateRefresh` with nothing between its statements, and with the random bytes of the token
-- that it may issue.
unfoldable pub rotate_refresh : (String → String) → ℕ → String → String → ℕ → Action (ℕ × String)
unfolding rotate_read rotate_row
rotate_refresh hash ttl raw_token raw now = do
  row ← rotate_read hash raw_token now
  rotate_row hash ttl row raw now

unfoldable pub revoke : (String → String) → String → RevokedReason → ℕ → Action (Unit {0})
revoke hash raw_token reason now = modify λ db. record db {
  refresh_tokens =
      update_many (λ t. has_hash (hash raw_token) t && is_unrevoked t) (revoke_as reason now)
        db.refresh_tokens;
}

-- The unit of `parseDurationMs`; the pattern leaves these four.
pub data DurationUnit : Type 0 where
  seconds minutes hours days : DurationUnit

abbrev pub factor : DurationUnit → ℕ
factor DurationUnit.seconds = 1000
factor DurationUnit.minutes = 60000
factor DurationUnit.hours = 3600000
factor DurationUnit.days = 86400000
