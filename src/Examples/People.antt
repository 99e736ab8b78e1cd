-- ===== src/Examples/People.antt =====
-- Witnesses for sessions, verification, discovery, reports and the webhook.
use samy.Endpoints.People.{suspend_user, suspend_user-locks_out}
use samy.Prelude.Int.{pos}
use samy.Wallet.Amount.{dec}
use samy.Marketplace.Profile.{Saved, bare_form, get_own, upsert, upsert-free, upsert-get_own}
use samy.Prelude.{Bool, ℕ, ◌≡◌, ◌⊎◌, refl, true, false, some, [], ◌∷◌, String, arith, any}
use samy.Database.Accounts.{Account}
use samy.Database.Rows.{KycVerification, ModelProfile, RefreshToken, RevokedReason, Role, User}
use samy.Database.{forbidden, Db, ok, err, unauthorized}
use samy.Database.Queries.{find_profile, find_user}
use samy.Auth.{is_live, new_token, revoke_as, rotate_refresh}
use samy.Auth.Rotation.{rotate_refresh-reuse}
use samy.Verification.{new_verification}
use samy.Users.{set_status, same_role}
use samy.Access.{authenticate, AuthUser, Claims, guarded, is_admin, is_suspended, login_or_register}
use samy.Access.Roles.{guarded-allowed, login_or_register-no_admin}
use samy.Endpoints.{PspEvent, handle_psp}
use samy.Endpoints.Webhooks.{Payment, handle_psp-Payment}
use samy.Examples.{ana, base_db, bia}

-- A hash for the examples: the token itself.
abbrev plain : String → String
plain s = s

abbrev stolen : RefreshToken
stolen = revoke_as RevokedReason.rotated 50 (new_token 1 "old" 9000)

abbrev session_db : Db
session_db = record base_db { refresh_tokens = new_token 1 "new" 9500 ∷ stolen ∷ [] }

rotate_refresh-reuse_example :
    ((rotate_refresh plain 500 "old" "next" 100 session_db).0
      ≡ err (unauthorized "Refresh token reuse detected"))
    × (any (is_live 1) (rotate_refresh plain 500 "old" "next" 100 session_db).1.refresh_tokens
        ≡ false)
rotate_refresh-reuse_example =
    rotate_refresh-reuse plain 500 "old" "next" 100 session_db stolen refl refl (omega arith)

abbrev pending : KycVerification
pending =
    new_verification 6 (Account.model 2) 2
      (record { provider_ref = "ref-6"; client_token = "token-6"; expires_at = 9000 }) 10

abbrev kyc_db : Db
kyc_db = record base_db { kyc_status = []; kyc_verifications = pending ∷ [] }

abbrev new_claims : Claims
new_claims = record { provider = "google"; subject = "g-1"; email = "c@example.com"; name = "Caio" }

login_or_register-no_admin_example :
    any
      (λ u. is_admin u.role)
      (login_or_register plain 500 3 new_claims (some Role.model) "raw" 100 base_db).1.users
    ≡ any (λ u. is_admin u.role) base_db.users
login_or_register-no_admin_example =
    login_or_register-no_admin plain 500 3 new_claims (some Role.model) "raw" 100 base_db

abbrev bia_auth : AuthUser
bia_auth = record { id = 2; role = Role.model; status = bia.status }

guarded-allowed_example :
    (id : ℕ) × (user : User) × (some (some 2) ≡ some (some id))
    × (find_user id base_db ≡ some user)
    × (is_suspended user.status ≡ false)
    × (2 ≡ user.id)
    × (Role.model ≡ user.role)
    × (any (λ q. same_role q user.role) (Role.model ∷ []) ≡ true)
unfolding guarded
guarded-allowed_example = guarded-allowed Role.model [] (some (some 2)) base_db bia_auth refl

abbrev event : PspEvent
event = record {
  event = "payment.confirmed";
  payment_id = some "charge-3";
  user_id = some "1";
  amount = some 2500;
}

handle_psp-Payment_example :
    ((handle_psp true event 70 base_db).1 ≡ base_db)
    ⊎ Payment true event 70 base_db (handle_psp true event 70 base_db).1
handle_psp-Payment_example = handle_psp-Payment true event 70 base_db

abbrev any_url : String → Bool
any_url u = true

-- 4.995 is stored as 5.00.
upsert-get_own_example :
    let after = (upsert any_url 2 (bare_form "Bia" (dec false 4995 3)) 80 base_db).1 in
    (p : ModelProfile) × ((get_own 2 after).0 ≡ ok p)
    × Saved 2 "Bia"
        (dec false 4995 3)
        (bare_form "Bia" (dec false 4995 3))
        (find_profile 2 base_db)
        p
unfolding upsert
upsert-get_own_example =
    upsert-get_own any_url 2 (bare_form "Bia" (dec false 4995 3)) 80 base_db "Bia"
      (dec false 4995 3) refl refl refl

-- A price of 0.001.
upsert-free_example :
    let after = (upsert any_url 2 (bare_form "Bia" (dec false 1 3)) 80 base_db).1 in
    (row : ModelProfile) × ((get_own 2 after).0 ≡ ok row) × (row.price_per_minute ≡ pos 0)
upsert-free_example = upsert-free any_url 2 "Bia" 1 3 80 base_db (omega arith) (omega arith)

abbrev boss : User
boss = record ana { id = 3; role = Role.admin; provider_subject = "sub-3" }

abbrev staffed_db : Db
staffed_db = record base_db { users = boss ∷ base_db.users }

suspend_user-locks_out_example :
    (authenticate (some (some 2)) (suspend_user (some (some 3)) 2 staffed_db).1).0
    ≡ err (forbidden "User suspended")
unfolding suspend_user guarded set_status
suspend_user-locks_out_example = suspend_user-locks_out (some (some 3)) 2 staffed_db refl
