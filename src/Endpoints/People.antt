-- ===== src/Endpoints/People.antt =====
-- The controllers of src/auth, src/admin, src/billing/gifts.controller.ts and
-- src/wallet/wallet-balance.controller.ts, with the guards in front of their handlers.
use samy.Prelude.{
  ℕ, ap, ◌∙◌, ◌≡◌, ◌==◌, Bool, true, not, Option, none, some, List, [], ◌∷◌, String, arith, any,
  find_first, update_many, Bool-cases, inl, inr,
}
use samy.Prelude.Int.{ℤ}
use samy.Database.Accounts.{Account}
use samy.Database.Rows.{Gift, GiftType, Role, User, UserStatus}
use samy.Database.{
  Db, Action, ok, err, bad_request, forbidden, not_found, pure, raise_if, or_raise, ◌>>=◌, ◌>>◌,
}
use samy.Database.Queries.{find_user}
use samy.Ledger.{get_balance}
use samy.Ranking.{TierRow}
use samy.Billing.{list_gift_catalog, send_gift}
use samy.Users.{list_users, set_status, with_status}
use samy.Access.{
  AuthUser, Claims, authenticate, dev_login, guarded, login_or_register, logout, refresh,
}

-- `AuthController.google`, at the claims that the identity token stands for, where it is a string
-- that is not empty.
unfoldable pub google :
    (String → String) → ℕ → ℕ → Option Claims → Option Role → String → ℕ → Action (User × String)
google hash ttl new_id token role raw now = do
  claims ← or_raise token (bad_request "idToken is required")
  login_or_register hash ttl new_id claims role raw now

unfoldable pub refresh_session :
    (String → String) → ℕ → Option String → String → ℕ → Action (User × String)
refresh_session hash ttl token raw now = do
  raw_token ← or_raise token (bad_request "refreshToken is required")
  refresh hash ttl raw_token raw now

unfoldable pub end_session : (String → String) → Option String → ℕ → Action (Unit {0})
end_session hash token now = elim token [
  | none ↦ pure tt
  | some raw_token ↦ logout hash raw_token now
]

abbrev pub dev_role : Option Role → Role
dev_role (some r) = r
dev_role none = Role.client

-- `dev` is DEV_LOGIN === 'true' and NODE_ENV !== 'production'.
unfoldable pub dev_session :
    Bool → (String → String) → ℕ → ℕ → Option Role → String → ℕ → Action (User × String)
dev_session dev hash ttl new_id role raw now = do
  raise_if (not dev) (not_found "Not Found")
  dev_login hash ttl new_id (dev_role role) raw now

unfoldable pub me : Option (Option ℕ) → Action AuthUser
me bearer = authenticate bearer

unfoldable pub list_all : Option (Option ℕ) → Option Role → Option UserStatus → Action (List User)
list_all bearer role status = guarded (Role.admin ∷ []) bearer >> list_users role status

unfoldable pub activate_user : Option (Option ℕ) → ℕ → Action (Unit {0})
activate_user bearer id = guarded (Role.admin ∷ []) bearer >> set_status id UserStatus.active

unfoldable pub suspend_user : Option (Option ℕ) → ℕ → Action (Unit {0})
suspend_user bearer id = guarded (Role.admin ∷ []) bearer >> set_status id UserStatus.suspended

unfoldable pub client_balance : Option (Option ℕ) → Action ℤ
client_balance bearer = do
  who ← guarded (Role.client ∷ []) bearer
  get_balance (Account.client who.id)

unfoldable pub model_earnings : Option (Option ℕ) → Action ℤ
model_earnings bearer = do
  who ← guarded (Role.model ∷ []) bearer
  get_balance (Account.model who.id)

unfoldable pub catalog : Option (Option ℕ) → Action (List GiftType)
catalog bearer = guarded [] bearer >> list_gift_catalog

unfoldable pub send : List TierRow → Option (Option ℕ) → ℕ → ℕ → ℕ → Action Gift
send table bearer gift_id model_id gift_type_id = do
  who ← guarded (Role.client ∷ []) bearer
  send_gift table gift_id who.id model_id gift_type_id

find-suspended :
    (id : ℕ) (us : List User)
    → any (λ u. u.id == id) us ≡ true
    → (u : User) × (find_first
          (λ q. q.id == id)
          (update_many (λ q. q.id == id) (with_status UserStatus.suspended) us)
        ≡ some (with_status UserStatus.suspended u))
find-suspended id [] h = absurd (ground arith)
find-suspended id (u ∷ us) h = elim (Bool-cases (u.id == id)) [
  | inl hit ↦ (u, ground arith)
  | inr miss ↦ let (v, e) = find-suspended id us (ground arith) in (v, ground arith)
]

suspend_writes :
    (bearer : Option (Option ℕ)) (id : ℕ) (db : Db)
    → (suspend_user bearer id db).0 ≡ ok tt
    → (any (λ u. u.id == id) db.users ≡ true)
      × ((suspend_user bearer id db).1.users
          ≡ update_many (λ u. u.id == id) (with_status UserStatus.suspended) db.users)
unfolding suspend_user set_status guarded
suspend_writes bearer id db h = ground arith

locked :
    (id : ℕ) (db : Db) (u : User)
    → find_user id db ≡ some (with_status UserStatus.suspended u)
    → (authenticate (some (some id)) db).0 ≡ err (forbidden "User suspended")
unfolding authenticate
locked id db u e = ground arith

-- Where an administrator's `suspend` returns, the user with that id is refused as suspended at
-- the next guarded request, whatever access token is still valid.
pub suspend_user-locks_out :
    (bearer : Option (Option ℕ)) (id : ℕ) (db : Db)
    → (suspend_user bearer id db).0 ≡ ok tt
    → (authenticate (some (some id)) (suspend_user bearer id db).1).0
      ≡ err (forbidden "User suspended")
suspend_user-locks_out bearer id db h =
    let (known, written) = suspend_writes bearer id db h in
    let (u, e) = find-suspended id db.users known in
    locked id (suspend_user bearer id db).1 u
      (ap (λ (us : List User). find_first (λ q. q.id == id) us) written ∙ e)
