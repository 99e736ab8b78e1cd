-- ===== src/Auth/Race.antt =====
-- `rotateRefresh` of src/auth/token.service.ts twice over one token, the second read before the
-- first write: the three statements stand in no transaction and the update has no guard.
use samy.Prelude.{
  ℕ, ◌≡◌, ◌≤◌, ◌+◌, refl, false, some, List, [], ◌∷◌, String, arith, any, find_first, update_many,
}
use samy.Database.Rows.{RefreshToken, RevokedReason}
use samy.Database.{Db, ok}
use samy.Auth.{has_hash, is_revoked, new_token, revoke_as, rotate_read, rotate_row}

read_row :
    (hash : String → String) (raw_token : String) (now : ℕ) (db : Db) (row : RefreshToken)
    → find_first (has_hash (hash raw_token)) db.refresh_tokens ≡ some row
    → now ≤ row.expires_at
    → rotate_read hash raw_token now db ≡ (ok row, db)
unfolding rotate_read
read_row hash raw_token now db row e fresh = ground arith

any-marked :
    (h g : String) (now : ℕ) (ts : List RefreshToken)
    → any (has_hash h) (update_many (has_hash g) (revoke_as RevokedReason.rotated now) ts)
      ≡ any (has_hash h) ts
any-marked h g now [] = refl
any-marked h g now (t ∷ ts) = ground (arith, any-marked h g now ts)

written :
    (hash : String → String) (ttl : ℕ) (row : RefreshToken) (raw : String) (now : ℕ) (db : Db)
    → is_revoked row ≡ false
    → any (has_hash (hash raw)) db.refresh_tokens ≡ false
    → rotate_row hash ttl row raw now db ≡ (
      ok (row.user_id, raw),
      record db {
        refresh_tokens =
            new_token row.user_id (hash raw) (now + ttl)
            ∷ update_many
                (has_hash row.token_hash)
                (revoke_as RevokedReason.rotated now)
                db.refresh_tokens;
      },
    )
unfolding rotate_row
written hash ttl row raw now db live unused =
    ground (arith, any-marked (hash raw) row.token_hash now db.refresh_tokens)

-- Where two rotations of one token that is live and not expired both read its row before either
-- writes, and the hashes of the two new tokens are unused and differ from each other and from that
-- of the token, both succeed, and neither of the new tokens is revoked: the second is not taken for
-- a reuse.
pub rotate_row-both :
    (hash : String → String) (ttl : ℕ) (raw_token raw raw' : String) (now later : ℕ) (db : Db)
    (row : RefreshToken)
    → find_first (has_hash (hash raw_token)) db.refresh_tokens ≡ some row
    → is_revoked row ≡ false
    → now ≤ row.expires_at
    → any (has_hash (hash raw)) db.refresh_tokens ≡ false
    → any (has_hash (hash raw')) db.refresh_tokens ≡ false
    → has_hash (hash raw') (new_token row.user_id (hash raw) (now + ttl)) ≡ false
    → has_hash row.token_hash (new_token row.user_id (hash raw) (now + ttl)) ≡ false
    → let read = rotate_read hash raw_token now db in
      let one = rotate_row hash ttl row raw now db in
      let two = rotate_row hash ttl row raw' later one.1 in
      (read ≡ (ok row, db))
      × (one.0 ≡ ok (row.user_id, raw))
      × (two.0 ≡ ok (row.user_id, raw'))
      × (rest : List RefreshToken) × (two.1.refresh_tokens
          ≡ new_token row.user_id (hash raw') (later + ttl)
            ∷ new_token row.user_id (hash raw) (now + ttl)
            ∷ rest)
rotate_row-both hash ttl raw_token raw raw' now later db row e live fresh unused unused' other old =
    rw (written hash ttl row raw now db live unused) (
      rw
        (written hash ttl row raw' later
          (record db {
            refresh_tokens =
                new_token row.user_id (hash raw) (now + ttl)
                ∷ update_many (has_hash row.token_hash) (revoke_as RevokedReason.rotated now)
                    db.refresh_tokens;
          })
          live (ground (arith, other, any-marked (hash raw') row.token_hash now db.refresh_tokens)))
        (
          read_row hash raw_token now db row e fresh,
          refl,
          refl,
          update_many (has_hash row.token_hash) (revoke_as RevokedReason.rotated later) (
              update_many (has_hash row.token_hash) (revoke_as RevokedReason.rotated now)
                db.refresh_tokens),
          ground (arith, old),
        ))
