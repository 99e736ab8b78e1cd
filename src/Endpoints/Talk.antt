-- ===== src/Endpoints/Talk.antt =====
-- src/calls/call.controller.ts and the controllers of src/marketplace for favourites, presence and
-- profiles, with the guards in front of their handlers. The body of a request to call holds a
-- model's id.
use samy.Prelude.{ℕ, Bool, String, Option, List, [], ◌∷◌}
use samy.Database.Accounts.{Account}
use samy.Database.Rows.{Call, ModelProfile, Role}
use samy.Database.{Action, ◌>>=◌}
use samy.Calls.{accept, get_for_participant, hangup, incoming_for, initiate, panic, reject}
use samy.Marketplace.{favorite, heartbeat, list_favorite_model_ids, unfavorite}
use samy.Marketplace.Profile.{UpsertProfileDto, get_own, upsert}
use samy.Access.{guarded}

unfoldable pub ring : Option (Option ℕ) → ℕ → ℕ → ℕ → Action Call
ring bearer id model_id now = do
  who ← guarded (Role.client ∷ []) bearer
  initiate id who.id model_id now

unfoldable pub accept_call : Option (Option ℕ) → ℕ → ℕ → Action (Unit {0})
accept_call bearer id now = do who ← guarded (Role.model ∷ []) bearer; accept id who.id now

unfoldable pub reject_call : Option (Option ℕ) → ℕ → ℕ → Action Call
reject_call bearer id now = do who ← guarded (Role.model ∷ []) bearer; reject id who.id now

unfoldable pub hangup_call : Option (Option ℕ) → ℕ → ℕ → Action Call
hangup_call bearer id now = do who ← guarded [] bearer; hangup id who.id now

unfoldable pub panic_call : Option (Option ℕ) → ℕ → ℕ → Action Call
panic_call bearer id now = do who ← guarded (Role.model ∷ []) bearer; panic id who.id now

unfoldable pub incoming : Option (Option ℕ) → ℕ → Action (Option Call)
incoming bearer now = do who ← guarded (Role.model ∷ []) bearer; incoming_for who.id now

unfoldable pub view_call : Option (Option ℕ) → ℕ → ℕ → Action (Call × Option (ℕ × Account))
view_call bearer id now = do who ← guarded [] bearer; get_for_participant id who.id who.role now

unfoldable pub add_favorite : Option (Option ℕ) → ℕ → Action (Unit {0})
add_favorite bearer model_id = do who ← guarded (Role.client ∷ []) bearer; favorite who.id model_id

unfoldable pub remove_favorite : Option (Option ℕ) → ℕ → Action (Unit {0})
remove_favorite bearer model_id = do
  who ← guarded (Role.client ∷ []) bearer
  unfavorite who.id model_id

unfoldable pub own_favorites : Option (Option ℕ) → Action (List ℕ)
own_favorites bearer = do who ← guarded (Role.client ∷ []) bearer; list_favorite_model_ids who.id

unfoldable pub beat : Option (Option ℕ) → ℕ → Action (Unit {0})
beat bearer now = do who ← guarded (Role.model ∷ []) bearer; heartbeat who.id now

unfoldable pub put_profile :
    (String → Bool) → Option (Option ℕ) → UpsertProfileDto → ℕ → Action (Unit {0})
put_profile is_http_url bearer dto now = do
  who ← guarded (Role.model ∷ []) bearer
  upsert is_http_url who.id dto now

unfoldable pub own_profile : Option (Option ℕ) → Action ModelProfile
own_profile bearer = do who ← guarded (Role.model ∷ []) bearer; get_own who.id
