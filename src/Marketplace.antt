-- ===== src/Marketplace.antt =====
-- src/marketplace: favourites (favorites.service.ts), presence (presence.service.ts over
-- src/redis/redis.service.ts) and discovery (discovery.service.ts). A page is asked for by whole
-- numbers; `-1` and fractions are outside the model, as are prices in their text form.
pub mod Pages
pub mod Profile
use text.Mathlib.Text.{◌==◌ as str_eq}
use samy.Prelude.{
  ℕ, zero, suc, ◌+◌, Bool, true, false, not, ◌&&◌, ◌||◌, ◌==◌, Option, none, some, List, [], ◌∷◌,
  String, ltb, if◌then◌else◌, any, all, find_first, find_many, sort_by, take, drop, map,
}
use samy.Prelude.Int.{ℤ}
use samy.Database.Rows.{Favorite, ModelProfile, PresenceKey, Role, User, is_active_user, is_model}
use samy.Database.{
  Db, Action, Error, Result, ok, err, bad_request, not_found, pure, raise, raise_if, query,
  or_raise, modify, ◌>>=◌, ◌>>◌,
}
use samy.Database.Queries.{find_profile, find_user}
use samy.Calls.{active_model_ids, is_online}

abbrev pub is_favorite : ℕ → ℕ → Favorite → Bool
is_favorite client_id model_id f = f.client_user_id == client_id && f.model_user_id == model_id

-- `favorite`: an upsert on the pair.
unfoldable pub favorite : ℕ → ℕ → Action (Unit {0})
favorite client_id model_id = do
  model ← or_raise (← query (find_user model_id)) (not_found "Model not found")
  raise_if (not (is_model model.role)) (not_found "Model not found")
  modify λ db. record db {
    favorites =
        if any (is_favorite client_id model_id) db.favorites
        then db.favorites
        else record { client_user_id = client_id; model_user_id = model_id } ∷ db.favorites;
  }

unfoldable pub unfavorite : ℕ → ℕ → Action (Unit {0})
unfavorite client_id model_id = modify λ db. record db {
  favorites = find_many (λ f. not (is_favorite client_id model_id f)) db.favorites;
}

abbrev pub favorite_model_ids : ℕ → List Favorite → List ℕ
favorite_model_ids client_id fs =
    map (λ (f : Favorite). f.model_user_id) (find_many (λ f. f.client_user_id == client_id) fs)

unfoldable pub list_favorite_model_ids : ℕ → Action (List ℕ)
list_favorite_model_ids client_id = query λ db. favorite_model_ids client_id db.favorites

-- `TTL_SECONDS`, in milliseconds.
abbrev pub presence_ttl : ℕ
presence_ttl = 30000

-- `heartbeat`: `SET key ONLINE EX 30`.
unfoldable pub heartbeat : ℕ → ℕ → Action (Unit {0})
heartbeat model_id now = modify λ db. record db {
  presence =
      record { model_id = model_id; expires_at = now + presence_ttl }
      ∷ find_many (λ k. not (k.model_id == model_id)) db.presence;
}

pub data CardStatus : Type 0 where
  online busy offline : CardStatus

abbrev pub status_rank : CardStatus → ℕ
status_rank CardStatus.online = 0
status_rank CardStatus.busy = 1
status_rank CardStatus.offline = 2

pub record ModelCard : Type 0 where
  pub user_id : ℕ
  pub stage_name : String
  pub bio : Option String
  pub price_per_minute : ℤ
  pub tags : List String
  pub voice_preview_url : Option String
  pub status : CardStatus
  pub is_favorite : Bool

-- `statusOf`: a call before presence.
abbrev pub status_of : Bool → Bool → CardStatus
status_of true on = CardStatus.busy
status_of false true = CardStatus.online
status_of false false = CardStatus.offline

abbrev pub to_card : ModelProfile → CardStatus → Bool → ModelCard
to_card p status fav = record {
  user_id = p.user_id;
  stage_name = p.stage_name;
  bio = p.bio;
  price_per_minute = p.price_per_minute;
  tags = p.tags;
  voice_preview_url = p.voice_preview_url;
  status = status;
  is_favorite = fav;
}

-- The comparison of `cards.sort`.
abbrev pub card_before : ModelCard → ModelCard → Bool
card_before a b =
    if status_rank a.status == status_rank b.status
    then a.is_favorite && not b.is_favorite
    else ltb (status_rank a.status) (status_rank b.status)

abbrev pub has_id : ℕ → List ℕ → Bool
has_id id = any (λ i. i == id)

-- `hasEvery`, which an empty or absent list does not filter by.
abbrev pub has_every : List String → ModelProfile → Bool
has_every wanted p = all (λ t. any (str_eq t) p.tags) wanted

abbrev pub candidates : List String → Db → List ModelProfile
candidates wanted db = take 5000 (
    sort_by (λ a b. ltb b.created_at a.created_at)
      (find_many
        (λ p.
          any (λ u. u.id == p.user_id && is_model u.role && is_active_user u.status) db.users
          && has_every wanted p)
        db.profiles))

-- The set of the client's favourites; empty for the other roles.
abbrev pub favorites_for : Role → ℕ → Db → List ℕ
favorites_for Role.client id db = favorite_model_ids id db.favorites
favorites_for _ id db = []

abbrev pub cards_for : List ModelProfile → List ℕ → List ℕ → ℕ → Db → List ModelCard
cards_for ps active favs now db =
    map
      (λ (p : ModelProfile).
        to_card p (status_of (has_id p.user_id active) (is_online now p.user_id db.presence))
          (has_id p.user_id favs))
      ps

abbrev pub page : ℕ → ℕ → List ModelCard → List ModelCard
page limit offset cards = take limit (drop offset cards)

unfoldable pub list : List String → ℕ → ℕ → ℕ → Role → ℕ → Action (List ModelCard)
list wanted limit offset requester role now = do
  raise_if (ltb limit 1 || ltb 100 limit) (bad_request "invalid limit/offset")
  ps ← query (candidates wanted)
  active ← active_model_ids (map (λ (p : ModelProfile). p.user_id) ps)
  favs ← query (favorites_for role requester)
  cards ← query (cards_for ps active favs now)
  pure (page limit offset (sort_by card_before cards))

-- `!profile || !user || user.role !== 'MODEL' || user.status !== 'ACTIVE'`.
abbrev pub visible : Option ModelProfile → Option User → Option ModelProfile
visible profile none = none
visible profile (some u) = if is_model u.role && is_active_user u.status then profile else none

unfoldable pub get_one : ℕ → ℕ → Role → ℕ → Action ModelCard
get_one model_id requester role now = do
  profile ←
      or_raise (← query λ db. visible (find_profile model_id db) (find_user model_id db))
        (not_found "Model not found")
  active ← active_model_ids (model_id ∷ [])
  favs ← query (favorites_for role requester)
  on ← query λ db. is_online now model_id db.presence
  pure (to_card profile (status_of (has_id model_id active) on) (has_id model_id favs))
