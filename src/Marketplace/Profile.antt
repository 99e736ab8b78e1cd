-- ===== src/Marketplace/Profile.antt =====
-- src/marketplace/profile.service.ts. A field of the form is given as the checks read it; whether
-- a text is an http(s) address is a parameter (the URL class).
use native.Mathlib.Nat.{div-eq_of_lt}
use samy.Prelude.{
  ap, ℕ, ◌+◌, ◌*◌, ◌/◌, ◌^◌, ◌<◌, ◌≡◌, refl, ◌∙◌, Bool, true, false, not, ◌==◌, Option, none, some,
  List, [], ◌∷◌, String, arith, ltb, if◌then◌else◌, any, find_first, update_many, ==_refl,
  Bool-cases, inl, inr,
}
use samy.Prelude.Int.{ℤ, pos, neg}
use samy.Database.Rows.{ModelProfile}
use samy.Database.{
  Db, Action, ok, bad_request, not_found, raise_if, query, or_raise, modify, ◌>>=◌, ◌>>◌,
}
use samy.Database.Queries.{find_profile}
use samy.Wallet.Amount.{Decimal, nan, dec}

-- `UpsertProfileDto`: the trimmed name where the field is a string that is not blank, the price
-- where it is read as a decimal; `some none` is a field that is there with another type.
pub record UpsertProfileDto : Type 0 where
  pub stage_name : Option String
  pub price_per_minute : Option Decimal
  pub voice_preview_url : Option String
  pub tags : Option (Option (List String))
  pub bio : Option (Option String)

-- `greaterThan(0)`.
abbrev pub is_positive : Decimal → Bool
is_positive nan = false
is_positive (dec true m p) = false
is_positive (dec false m p) = ltb 0 m

-- The column `Decimal(14, 2)` rounds what is written to it, a half away from zero.
abbrev pub stored_cents : Decimal → ℤ
stored_cents nan = pos 0
stored_cents (dec true m p) = neg (pos ((m * 200 + 10 ^ p) / (2 * 10 ^ p)))
stored_cents (dec false m p) = pos ((m * 200 + 10 ^ p) / (2 * 10 ^ p))

-- A field that is absent, or there with its type.
abbrev pub is_malformed {ℓ} : {A : Type ℓ} → Option (Option A) → Bool
is_malformed (some none) = true
is_malformed _ = false

abbrev pub field {ℓ} : {A : Type ℓ} → Option (Option A) → Option A
field none = none
field (some a) = a

-- An update by `undefined` leaves the column as it is.
abbrev pub or_kept {ℓ} : {A : Type ℓ} → Option A → Option A → Option A
or_kept none old = old
or_kept (some a) old = some a

abbrev pub or_nil : Option (List String) → List String
or_nil none = []
or_nil (some ts) = ts

abbrev pub created_profile : ℕ → String → Decimal → UpsertProfileDto → ℕ → ModelProfile
created_profile user_id name price dto now = record {
  user_id = user_id;
  stage_name = name;
  bio = field dto.bio;
  price_per_minute = stored_cents price;
  tags = or_nil (field dto.tags);
  voice_preview_url = dto.voice_preview_url;
  take_rate = none;
  created_at = now;
}

abbrev pub updated_profile : String → Decimal → UpsertProfileDto → ModelProfile → ModelProfile
updated_profile name price dto p = record p {
  stage_name = name;
  bio = or_kept (field dto.bio) p.bio;
  price_per_minute = stored_cents price;
  tags = or_nil (field dto.tags);
  voice_preview_url = or_kept dto.voice_preview_url p.voice_preview_url;
}

abbrev pub is_bad_url : (String → Bool) → Option String → Bool
is_bad_url is_http_url none = false
is_bad_url is_http_url (some u) = not (is_http_url u)

abbrev pub has_user : ℕ → ModelProfile → Bool
has_user user_id p = p.user_id == user_id

unfoldable pub upsert : (String → Bool) → ℕ → UpsertProfileDto → ℕ → Action (Unit {0})
upsert is_http_url user_id dto now = do
  name ← or_raise dto.stage_name (bad_request "stageName is required")
  price ← or_raise dto.price_per_minute (bad_request "pricePerMinute must be a decimal")
  raise_if (not (is_positive price)) (bad_request "pricePerMinute must be > 0")
  raise_if (is_bad_url is_http_url dto.voice_preview_url)
      (bad_request "voicePreviewUrl must be an http(s) URL")
  raise_if (is_malformed dto.tags) (bad_request "tags must be an array of strings")
  raise_if (is_malformed dto.bio) (bad_request "bio must be a string")
  modify λ db. record db {
    profiles =
        if any (has_user user_id) db.profiles
        then update_many (has_user user_id) (updated_profile name price dto) db.profiles
        else created_profile user_id name price dto now ∷ db.profiles;
  }

unfoldable pub get_own : ℕ → Action ModelProfile
get_own user_id = do
  found ← query (find_profile user_id)
  or_raise found (not_found "Profile not found")

-- The columns of a row that a form may leave as they are, empty where there was no row.
abbrev pub bio_of : Option ModelProfile → Option String
bio_of none = none
bio_of (some p) = p.bio

abbrev pub voice_of : Option ModelProfile → Option String
voice_of none = none
voice_of (some p) = p.voice_preview_url

abbrev pub take_rate_of : Option ModelProfile → Option ℤ
take_rate_of none = none
take_rate_of (some p) = p.take_rate

-- What a stored form leaves in the row, by the row that there was.
pub record Saved (user_id : ℕ) (name : String) (price : Decimal) (dto : UpsertProfileDto)
    (old : Option ModelProfile) (p : ModelProfile) : Type 0 where
  pub same_user : p.user_id ≡ user_id
  pub same_name : p.stage_name ≡ name
  pub same_price : p.price_per_minute ≡ stored_cents price
  pub same_tags : p.tags ≡ or_nil (field dto.tags)
  pub same_bio : p.bio ≡ or_kept (field dto.bio) (bio_of old)
  pub same_voice : p.voice_preview_url ≡ or_kept dto.voice_preview_url (voice_of old)
  pub same_take_rate : p.take_rate ≡ take_rate_of old

created_profile-Saved :
    (user_id : ℕ) (name : String) (price : Decimal) (dto : UpsertProfileDto) (now : ℕ)
    → Saved user_id name price dto none (created_profile user_id name price dto now)
created_profile-Saved user_id name price dto now = record {
  same_user = refl;
  same_name = refl;
  same_price = refl;
  same_tags = refl;
  same_bio = or_kept_none (field dto.bio);
  same_voice = or_kept_none dto.voice_preview_url;
  same_take_rate = refl;
}
  where
    or_kept_none : (o : Option String) → o ≡ or_kept o none
    or_kept_none none = refl
    or_kept_none (some a) = refl

find-updated :
    (user_id : ℕ) (f : ModelProfile → ModelProfile) (ps : List ModelProfile)
    → ((p : ModelProfile) → (f p).user_id ≡ p.user_id)
    → any (has_user user_id) ps ≡ true
    → (p : ModelProfile) × (find_first (has_user user_id) (update_many (has_user user_id) f ps)
        ≡ some (f p))
      × (p.user_id ≡ user_id)
      × (find_first (has_user user_id) ps ≡ some p)
find-updated user_id f [] same h = absurd (ground arith)
find-updated user_id f (p ∷ ps) same h = elim (Bool-cases (has_user user_id p)) [
  | inl hit ↦ (p, ground (arith, same p), ground arith, ground arith)
  | inr miss ↦
      let (q, e, u, here) = find-updated user_id f ps same (ground arith) in
      (q, ground arith, u, ground arith)
]

upsert_writes :
    (is_http_url : String → Bool) (user_id : ℕ) (dto : UpsertProfileDto) (now : ℕ) (db : Db)
    (name : String) (price : Decimal)
    → dto.stage_name ≡ some name
    → dto.price_per_minute ≡ some price
    → (upsert is_http_url user_id dto now db).0 ≡ ok tt
    → (upsert is_http_url user_id dto now db).1 ≡ record db {
      profiles =
          if any (has_user user_id) db.profiles
          then update_many (has_user user_id) (updated_profile name price dto) db.profiles
          else created_profile user_id name price dto now ∷ db.profiles;
    }
unfolding upsert
upsert_writes is_http_url user_id dto now db name price n pr h = ground arith

unfound :
    (user_id : ℕ) (ps : List ModelProfile)
    → any (has_user user_id) ps ≡ false
    → find_first (has_user user_id) ps ≡ none
unfound user_id [] h = refl
unfound user_id (p ∷ ps) h = ground (arith, unfound user_id ps)

-- Where `upsert` accepts a form, `getOwn` of the same user returns a row with the form's name,
-- price (as the column rounds it) and tags; its bio and voice preview are the form's where the form
-- has them, and otherwise, like the take rate always, what the row had or nothing.
pub upsert-get_own :
    (is_http_url : String → Bool) (user_id : ℕ) (dto : UpsertProfileDto) (now : ℕ) (db : Db)
    (name : String) (price : Decimal)
    → dto.stage_name ≡ some name
    → dto.price_per_minute ≡ some price
    → (upsert is_http_url user_id dto now db).0 ≡ ok tt
    → let after = (upsert is_http_url user_id dto now db).1 in
      (p : ModelProfile) × ((get_own user_id after).0 ≡ ok p)
      × Saved user_id name price dto (find_profile user_id db) p
unfolding get_own
upsert-get_own is_http_url user_id dto now db name price n pr h =
    rw (upsert_writes is_http_url user_id dto now db name price n pr h)
      (elim (Bool-cases (any (has_user user_id) db.profiles)) [
        | inl old ↦
            let (p, e, u, here) =
              find-updated user_id (updated_profile name price dto) db.profiles (λ q. refl) old in
            (
              updated_profile name price dto p,
              ground arith,
              rw here (record {
                same_user = u;
                same_name = refl;
                same_price = refl;
                same_tags = refl;
                same_bio = refl;
                same_voice = refl;
                same_take_rate = refl;
              }),
            )
        | inr new ↦ (
          created_profile user_id name price dto now,
          ground (arith, ==_refl user_id),
          rw (unfound user_id db.profiles new) (created_profile-Saved user_id name price dto now),
        )
      ])

-- The form with a name and a price only.
abbrev pub bare_form : String → Decimal → UpsertProfileDto
bare_form name price = record {
  stage_name = some name;
  price_per_minute = some price;
  voice_preview_url = none;
  tags = none;
  bio = none;
}

bare_form-accepted :
    (is_http_url : String → Bool) (user_id : ℕ) (name : String) (m p now : ℕ) (db : Db)
    → 0 < m
    → (upsert is_http_url user_id (bare_form name (dec false m p)) now db).0 ≡ ok tt
unfolding upsert
bare_form-accepted is_http_url user_id name m p now db h = ground arith

small_price : (m p : ℕ) → m * 200 < 10 ^ p → stored_cents (dec false m p) ≡ pos 0
small_price m p h = ap pos (div-eq_of_lt {n = m * 200 + 10 ^ p} {m = 2 * 10 ^ p} (omega arith))

-- A price above zero and below half a cent, in a form with a name and nothing else, passes the
-- check `greaterThan(0)` and is stored as a price of zero: the model's calls cost nothing.
pub upsert-free :
    (is_http_url : String → Bool) (user_id : ℕ) (name : String) (m p now : ℕ) (db : Db)
    → 0 < m
    → m * 200 < 10 ^ p
    → let after = (upsert is_http_url user_id (bare_form name (dec false m p)) now db).1 in
      (row : ModelProfile) × ((get_own user_id after).0 ≡ ok row) × (row.price_per_minute ≡ pos 0)
upsert-free is_http_url user_id name m p now db positive small =
    let (row, e, saved) =
      upsert-get_own is_http_url user_id (bare_form name (dec false m p)) now db name
        (dec false m p) refl refl
        (bare_form-accepted is_http_url user_id name m p now db positive) in
    (row, e, saved.same_price ∙ small_price m p small)
