-- ===== src/Access/Roles.antt =====
-- Who gets in (src/auth): the login through an identity provider makes no
-- administrator, and a guarded endpoint
-- sees a known user of a role that it asks for.
use samy.Prelude.{
  ℕ, ◌≡◌, refl, true, false, Option, none, some, List, ◌∷◌, String, arith, any, Option-cases, inl,
  inr,
}
use samy.Database.Rows.{Role, User}
use samy.Database.{Db, ok}
use samy.Database.Queries.{find_user}
use samy.Users.{create_user, find_by_provider, same_role}
use samy.Auth.{issue_refresh}
use samy.Access.{AuthUser, Claims, guarded, is_admin, is_suspended, login_or_register}

-- `loginOrRegister` of an identity provider's claims, with whatever role asked for, makes no
-- administrator: there is one afterwards if and only if there was one before. (`devLogin` can make
-- one.)
pub login_or_register-no_admin :
    (hash : String → String) (ttl new_id : ℕ) (claims : Claims) (role : Option Role) (raw : String)
    (now : ℕ) (db : Db)
    → any (λ u. is_admin u.role) (login_or_register hash ttl new_id claims role raw now db).1.users
      ≡ any (λ u. is_admin u.role) db.users
unfolding login_or_register find_by_provider create_user issue_refresh
login_or_register-no_admin hash ttl new_id claims role raw now db = ground arith

-- Where the guards of an endpoint that asks for some role let a request through, the token named
-- a user that exists and is not suspended, the request carries that user's id and role, and the
-- role is one of those asked for.
pub guarded-allowed :
    (r : Role) (rs : List Role) (bearer : Option (Option ℕ)) (db : Db) (who : AuthUser)
    → (guarded (r ∷ rs) bearer db).0 ≡ ok who
    → (id : ℕ) × (user : User) × (bearer ≡ some (some id))
      × (find_user id db ≡ some user)
      × (is_suspended user.status ≡ false)
      × (who.id ≡ user.id)
      × (who.role ≡ user.role)
      × (any (λ q. same_role q user.role) (r ∷ rs) ≡ true)
unfolding guarded
guarded-allowed r rs none db who h = absurd (ground arith)
guarded-allowed r rs (some none) db who h = absurd (ground arith)
guarded-allowed r rs (some (some id)) db who h = elim (Option-cases (find_user id db)) [
  | inl e ↦ absurd (ground arith)
  | inr (user, e) ↦ (id, user, refl, e, ground arith, ground arith, ground arith, ground arith)
]
