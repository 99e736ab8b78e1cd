-- ===== src/Auth/Rotation.antt =====
-- Rotation of refresh tokens and the detection of their reuse (src/auth/token.service.ts).
use text.Mathlib.Text.{◌==◌ as str_eq}
use text.Mathlib.TextEquality.{eq_iff}
use mathlib.Core.Path.{subst}
use samy.Prelude.{
  ℕ, ◌+◌, ◌≡◌, refl, sym, ap, true, false, some, Bool-cases, inl, inr, find_first-holds,
  find_first-any, List, [], ◌∷◌, String, arith, any, find_first, update_many, ◌≤◌,
}
use samy.Database.Rows.{RefreshToken, RevokedReason}
use samy.Database.{Db, ok, err, unauthorized}
use samy.Auth.{has_hash, is_live, is_revoked, new_token, revoke_as, rotate_refresh}

none-is_live :
    (user_id now : ℕ) (ts : List RefreshToken)
    → any
        (is_live user_id)
        (update_many (is_live user_id) (revoke_as RevokedReason.security_reset now) ts)
      ≡ false
none-is_live user_id now [] = refl
none-is_live user_id now (t ∷ ts) = ground (arith, none-is_live user_id now ts)

-- A refresh token that is known, not expired and revoked is refused as reused, and afterwards its
-- user has no session left that is not revoked.
pub rotate_refresh-reuse :
    (hash : String → String) (ttl : ℕ) (raw_token raw : String) (now : ℕ) (db : Db)
    (row : RefreshToken)
    → find_first (has_hash (hash raw_token)) db.refresh_tokens ≡ some row
    → is_revoked row ≡ true
    → now ≤ row.expires_at
    → ((rotate_refresh hash ttl raw_token raw now db).0
        ≡ err (unauthorized "Refresh token reuse detected"))
      × (any (is_live row.user_id) (rotate_refresh hash ttl raw_token raw now db).1.refresh_tokens
          ≡ false)
unfolding rotate_refresh
rotate_refresh-reuse hash ttl raw_token raw now db row e revoked fresh =
    (ground arith, ground (arith, none-is_live row.user_id now db.refresh_tokens))

any-revoked :
    (h g : String) (now : ℕ) (ts : List RefreshToken)
    → any (has_hash h) (update_many (has_hash g) (revoke_as RevokedReason.rotated now) ts)
      ≡ any (has_hash h) ts
any-revoked h g now [] = refl
any-revoked h g now (t ∷ ts) = ground (arith, any-revoked h g now ts)

find-revoked :
    (h : String) (now : ℕ) (ts : List RefreshToken) (row : RefreshToken)
    → find_first (has_hash h) ts ≡ some row
    → find_first (has_hash h) (update_many (has_hash h) (revoke_as RevokedReason.rotated now) ts)
      ≡ some (revoke_as RevokedReason.rotated now row)
find-revoked h now [] row e = cc
find-revoked h now (t ∷ ts) row e = ground (arith, find-revoked h now ts row)

-- The row that is found under a hash has it.
found_hash :
    (h : String) (ts : List RefreshToken) (row : RefreshToken)
    → find_first (has_hash h) ts ≡ some row
    → row.token_hash ≡ h
found_hash h ts row e = (eq_iff row.token_hash h).0 (find_first-holds (has_hash h) ts row e)

-- An unused hash is not the one of a row that is there.
unused-other :
    (g h : String) (ts : List RefreshToken) (row : RefreshToken)
    → find_first (has_hash h) ts ≡ some row
    → any (has_hash g) ts ≡ false
    → str_eq g h ≡ false
unused-other g h ts row e unused = elim (Bool-cases (str_eq g h)) [
  | inr other ↦ other
  | inl same ↦
      let e' : find_first (has_hash g) ts ≡ some row =
        subst (λ (x : String). find_first (has_hash x) ts ≡ some row) (sym ((eq_iff g h).0 same))
          e in
      absurd (ground (arith, find_first-any (has_hash g) ts row e'))
]

-- A rotation that goes through.
abbrev pub rotated_db : (String → String) → ℕ → RefreshToken → String → ℕ → Db → Db
rotated_db hash ttl row raw now db = record db {
  refresh_tokens =
      new_token row.user_id (hash raw) (now + ttl)
      ∷ update_many (has_hash row.token_hash) (revoke_as RevokedReason.rotated now)
          db.refresh_tokens;
}

-- A refresh token that is known, not expired and not revoked is exchanged for a new one of the same
-- user, if the new one's hash is unused; and the old one is then found revoked.
pub rotate_refresh-replaces :
    (hash : String → String) (ttl : ℕ) (raw_token raw : String) (now : ℕ) (db : Db)
    (row : RefreshToken)
    → find_first (has_hash (hash raw_token)) db.refresh_tokens ≡ some row
    → is_revoked row ≡ false
    → now ≤ row.expires_at
    → any (has_hash (hash raw)) db.refresh_tokens ≡ false
    → (rotate_refresh hash ttl raw_token raw now db
        ≡ (ok (row.user_id, raw), rotated_db hash ttl row raw now db))
      × (find_first (has_hash (hash raw_token)) (rotated_db hash ttl row raw now db).refresh_tokens
          ≡ some (revoke_as RevokedReason.rotated now row))
unfolding rotate_refresh
rotate_refresh-replaces hash ttl raw_token raw now db row e live fresh unused = (
  ground (arith, any-revoked (hash raw) row.token_hash now db.refresh_tokens),
  ground (
    arith,
    unused-other (hash raw) (hash raw_token) db.refresh_tokens row e unused,
    ap
        (λ (h : String).
          find_first (has_hash (hash raw_token))
            (update_many (has_hash h) (revoke_as RevokedReason.rotated now) db.refresh_tokens))
        (found_hash (hash raw_token) db.refresh_tokens row e),
    find-revoked (hash raw_token) now db.refresh_tokens row e,
  ),
)
