-- ===== src/Users.antt =====
-- src/users/users.service.ts. Queries that only read take the tables as they are.
use text.Mathlib.Text.{◌==◌ as str_eq}
use samy.Prelude.{
  ℕ, Bool, true, false, not, ◌&&◌, ◌||◌, ◌==◌, Option, none, some, List, ◌∷◌, String, ltb, any,
  find_first, find_many, update_many, sort_by, take,
}
use samy.Database.Accounts.{Account}
use samy.Database.Rows.{Role, User, UserStatus}
use samy.Database.{
  Action, not_found, record_not_found, unique_violation, attempt, pure, raise, raise_if, query,
  modify, ◌>>=◌, ◌>>◌,
}

abbrev pub has_identity : String → String → User → Bool
has_identity provider subject u = str_eq u.provider provider && str_eq u.provider_subject subject

unfoldable pub find_by_provider : String → String → Action (Option User)
find_by_provider provider subject = query λ db. find_first (has_identity provider subject) db.users

-- A model waits for the verification of its identity.
abbrev pub first_status : Role → UserStatus
first_status Role.model = UserStatus.pending_verification
first_status _ = UserStatus.active

-- `CreateUserInput`.
pub record CreateUserInput : Type 0 where
  pub role : Role
  pub provider : String
  pub subject : String
  pub email : String
  pub name : String

abbrev pub new_user : ℕ → CreateUserInput → ℕ → User
new_user id input now = record {
  id = id;
  role = input.role;
  provider = input.provider;
  provider_subject = input.subject;
  email = input.email;
  display_name = input.name;
  status = first_status input.role;
  created_at = now;
}

-- `createUser`: the pair of provider and subject is unique.
unfoldable pub create_user : ℕ → CreateUserInput → ℕ → Action User
create_user id input now = do
  raise_if
      (← query λ db. any (λ u. u.id == id || has_identity input.provider input.subject u) db.users)
      unique_violation
  modify λ db. record db { users = new_user id input now ∷ db.users }
  pure (new_user id input now)

abbrev pub with_status : UserStatus → User → User
with_status status u = record u { status = status }

-- `setStatus`: the update by a missing id raises P2025, which becomes a 404.
unfoldable pub set_status : ℕ → UserStatus → Action (Unit {0})
set_status id status =
    attempt
      (do
        raise_if (← query λ db. not (any (λ u. u.id == id) db.users)) record_not_found
        modify
            λ db. record db { users = update_many (λ u. u.id == id) (with_status status) db.users })
      (λ e. raise (elim e [ record_not_found ↦ not_found "User not found" | other ↦ other ]))

abbrev pub same_role : Role → Role → Bool
same_role Role.client Role.client = true
same_role Role.model Role.model = true
same_role Role.admin Role.admin = true
same_role _ _ = false

abbrev pub same_status : UserStatus → UserStatus → Bool
same_status UserStatus.active UserStatus.active = true
same_status UserStatus.suspended UserStatus.suspended = true
same_status UserStatus.pending_verification UserStatus.pending_verification = true
same_status _ _ = false

-- A filter that is absent lets every row through.
abbrev pub passes {ℓ} : {A : Type ℓ} → (A → A → Bool) → Option A → A → Bool
passes same none a = true
passes same (some b) a = same a b

unfoldable pub list_users : Option Role → Option UserStatus → Action (List User)
list_users role status = query λ db. take 200 (
    sort_by (λ a b. ltb b.created_at a.created_at)
      (find_many (λ u. passes same_role role u.role && passes same_status status u.status)
        db.users))

-- `accountOf`: the role in lower case and the id.
abbrev pub account_of : Role → ℕ → Account
account_of Role.client id = Account.client id
account_of Role.model id = Account.model id
account_of Role.admin id = Account.admin id
