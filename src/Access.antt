-- ===== src/Access.antt =====
-- src/auth/auth.service.ts and the guards jwt-auth.guard.ts and roles.guard.ts. The identity
-- provider's claims are an argument, and so is what `verifyAccess` makes of a bearer token: the
-- payload, or nothing where it throws.
pub mod Roles
use samy.Prelude.{
  ℕ, Bool, true, false, not, ◌&&◌, ◌||◌, ◌==◌, Option, none, some, List, [], ◌∷◌, String,
  if◌then◌else◌, any, find_first,
}
use samy.Database.Rows.{RevokedReason, Role, User, UserStatus, is_active_user}
use samy.Database.{
  Db, Action, Error, Result, ok, err, bad_request, forbidden, unauthorized, pure, raise, raise_if,
  query, or_raise, ◌>>=◌, ◌>>◌,
}
use samy.Database.Queries.{find_user}
use samy.Users.{CreateUserInput, create_user, find_by_provider, same_role, set_status, with_status}
use samy.Auth.{issue_refresh, revoke, rotate_refresh}

-- The claims of `identity.verify`.
pub record Claims : Type 0 where
  pub provider : String
  pub subject : String
  pub email : String
  pub name : String

abbrev pub is_admin : Role → Bool
is_admin Role.admin = true
is_admin _ = false

abbrev pub asks_admin : Option Role → Bool
asks_admin none = false
asks_admin (some r) = is_admin r

-- `role === 'MODEL' ? 'MODEL' : 'CLIENT'`.
abbrev pub chosen_role : Option Role → Role
chosen_role (some Role.model) = Role.model
chosen_role _ = Role.client

abbrev pub input_of : Claims → Role → CreateUserInput
input_of claims role = record {
  role = role;
  provider = claims.provider;
  subject = claims.subject;
  email = claims.email;
  name = claims.name;
}

-- `loginOrRegister`: the user and the refresh token; the access token is signed from the user.
unfoldable pub login_or_register :
    (String → String) → ℕ → ℕ → Claims → Option Role → String → ℕ → Action (User × String)
login_or_register hash ttl new_id claims role raw now = do
  found ← find_by_provider claims.provider claims.subject
  user ← elim found [
    | some u ↦ pure u
    | none ↦ (do
      raise_if (asks_admin role) (bad_request "Cannot self-register as ADMIN")
      create_user new_id (input_of claims (chosen_role role)) now)
  ]
  token ← issue_refresh hash ttl user.id raw now
  pure (user, token)

abbrev pub dev_claims : Role → Claims
dev_claims Role.model = record {
  provider = "dev";
  subject = "dev-model";
  email = "dev-model@samy.local";
  name = "Modelo Dev";
}
dev_claims Role.admin = record {
  provider = "dev";
  subject = "dev-admin";
  email = "dev-admin@samy.local";
  name = "Admin Dev";
}
dev_claims Role.client = record {
  provider = "dev";
  subject = "dev-client";
  email = "dev@samy.local";
  name = "Cliente Dev";
}

abbrev pub is_client : Role → Bool
is_client Role.client = true
is_client _ = false

-- `devLogin`.
unfoldable pub dev_login : (String → String) → ℕ → ℕ → Role → String → ℕ → Action (User × String)
dev_login hash ttl new_id role raw now = do
  found ← find_by_provider (dev_claims role).provider (dev_claims role).subject
  user ← elim found [
    | some u ↦ pure u
    | none ↦ create_user new_id (input_of (dev_claims role) role) now
  ]
  active ←
      if not (is_client role) && not (is_active_user user.status)
      then (set_status user.id UserStatus.active >> pure (with_status UserStatus.active user))
      else pure user
  token ← issue_refresh hash ttl active.id raw now
  pure (active, token)

abbrev pub is_suspended : UserStatus → Bool
is_suspended UserStatus.suspended = true
is_suspended _ = false

-- `!user || user.status === 'SUSPENDED'`, as the user that is left.
abbrev pub allowed : Option User → Option User
allowed none = none
allowed (some u) = if is_suspended u.status then none else some u

-- `refresh`: the token that was just issued is revoked again for a user that is not allowed.
unfoldable pub refresh : (String → String) → ℕ → String → String → ℕ → Action (User × String)
refresh hash ttl raw_token raw now = do
  rotated ← rotate_refresh hash ttl raw_token raw now
  found ← query λ db. allowed (find_user rotated.0 db)
  elim found [
    | some u ↦ pure (u, rotated.1)
    | none ↦
        revoke hash rotated.1 RevokedReason.security_reset now
        >> raise (unauthorized "User not allowed")
  ]

unfoldable pub logout : (String → String) → String → ℕ → Action (Unit {0})
logout hash raw_token now = revoke hash raw_token RevokedReason.logout now

-- What the guard puts on the request.
pub record AuthUser : Type 0 where
  pub id : ℕ
  pub role : Role
  pub status : UserStatus

-- `JwtAuthGuard.canActivate`: the header's token, where it has the form `Bearer …`, as
-- `verifyAccess` reads it.
unfoldable pub authenticate : Option (Option ℕ) → Action AuthUser
authenticate bearer = do
  payload ← or_raise bearer (unauthorized "Missing bearer token")
  sub ← or_raise payload (unauthorized "Invalid access token")
  user ← or_raise (← query (find_user sub)) (unauthorized "User not found")
  raise_if (is_suspended user.status) (forbidden "User suspended")
  pure (record { id = user.id; role = user.role; status = user.status })

-- `RolesGuard.canActivate`; no required role lets every request through.
abbrev pub may_enter : List Role → Option AuthUser → Bool
may_enter [] user = true
may_enter (r ∷ rs) none = false
may_enter (r ∷ rs) (some u) = any (λ q. same_role q u.role) (r ∷ rs)

-- Both guards in the order in which the controllers name them.
unfoldable pub guarded : List Role → Option (Option ℕ) → Action AuthUser
unfolding authenticate
guarded required bearer = do
  user ← authenticate bearer
  raise_if (not (may_enter required (some user))) (forbidden "Insufficient role")
  pure user
