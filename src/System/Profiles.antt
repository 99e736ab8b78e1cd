-- ===== src/System/Profiles.antt =====
-- The form of src/marketplace/profile.service.ts keeps the invariant: the price that it stores is
-- not negative.
use samy.Prelude.{
  ℕ, ◌≡◌, ◌⊎◌, refl, Bool, true, false, List, ◌∷◌, String, Option-cases, Bool-cases, inl, inr,
  arith, any, All, All-update_many, update_many, if◌then◌else◌,
}
use samy.Prelude.Int.{pos, ◌≤ℤ◌}
use samy.Database.Rows.{ModelProfile}
use samy.Database.{Db}
use samy.Wallet.Amount.{Decimal, nan, dec}
use samy.Marketplace.Profile.{
  UpsertProfileDto, is_positive, stored_cents, created_profile, updated_profile, has_user, upsert,
  is_bad_url, is_malformed,
}
use samy.System.Sound.{IsSound, IsProfile}

profiles-IsSound :
    {db : Db} (ps : List ModelProfile)
    → All IsProfile ps
    → IsSound db
    → IsSound (record db { profiles = ps })
profiles-IsSound ps h s = record {
  booked = s.booked;
  solvent = s.solvent;
  unique = s.unique;
  call_prices = s.call_prices;
  profiles = h;
  gift_prices = s.gift_prices;
  recharges = s.recharges;
  payouts = s.payouts;
}

stored_cents-nonneg : (price : Decimal) → is_positive price ≡ true → pos 0 ≤ℤ stored_cents price
stored_cents-nonneg nan h = cc
stored_cents-nonneg (dec true m p) h = cc
stored_cents-nonneg (dec false m p) h = omega arith

saved_profiles : ℕ → String → Decimal → UpsertProfileDto → ℕ → List ModelProfile → List ModelProfile
saved_profiles user_id name price dto now ps =
    if any (has_user user_id) ps
    then update_many (has_user user_id) (updated_profile name price dto) ps
    else created_profile user_id name price dto now ∷ ps

saved_profiles-All :
    (user_id : ℕ) (name : String) (price : Decimal) (dto : UpsertProfileDto) (now : ℕ)
    (ps : List ModelProfile)
    → is_positive price ≡ true
    → All IsProfile ps
    → All IsProfile (saved_profiles user_id name price dto now ps)
unfolding saved_profiles
saved_profiles-All user_id name price dto now ps h all =
    elim (Bool-cases (any (has_user user_id) ps)) [
      | inl there ↦ rw there (
          All-update_many (has_user user_id) IsProfile (updated_profile name price dto) ps
            (λ p hp. (stored_cents-nonneg price h, hp.1)) all)
      | inr new ↦ rw new ((stored_cents-nonneg price h, tt), all)
    ]

-- The form changes nothing, or stores a price that is positive.
upsert-cases :
    (is_http_url : String → Bool) (user_id : ℕ) (dto : UpsertProfileDto) (now : ℕ) (db : Db)
    → ((upsert is_http_url user_id dto now db).1 ≡ db)
      ⊎ ((name : String) × (price : Decimal) × (is_positive price ≡ true)
          × ((upsert is_http_url user_id dto now db).1
              ≡ record db { profiles = saved_profiles user_id name price dto now db.profiles }))
unfolding upsert saved_profiles
upsert-cases is_http_url user_id dto now db = elim (Option-cases dto.stage_name) [
  | inl e ↦ inl (ground arith)
  | inr (name, n) ↦ elim (Option-cases dto.price_per_minute) [
    | inl e ↦ inl (ground arith)
    | inr (price, p) ↦ elim (Bool-cases (is_positive price)) [
      | inr low ↦ inl (ground arith)
      | inl high ↦ elim (Bool-cases (is_bad_url is_http_url dto.voice_preview_url)) [
        | inl bad ↦ inl (ground arith)
        | inr good ↦ elim (Bool-cases (is_malformed dto.tags)) [
          | inl bad ↦ inl (ground arith)
          | inr tags ↦ elim (Bool-cases (is_malformed dto.bio)) [
            | inl bad ↦ inl (ground arith)
            | inr bio ↦ inr (name, price, high, ground arith)
          ]
        ]
      ]
    ]
  ]
]

pub upsert-IsSound :
    (is_http_url : String → Bool) (user_id : ℕ) (dto : UpsertProfileDto) (now : ℕ) (db : Db)
    → IsSound db
    → IsSound (upsert is_http_url user_id dto now db).1
upsert-IsSound is_http_url user_id dto now db s =
    elim (upsert-cases is_http_url user_id dto now db) [
      | inl same ↦ rw same s
      | inr (name, price, high, e) ↦ rw e (
          profiles-IsSound _
            (saved_profiles-All user_id name price dto now db.profiles high s.profiles) s)
    ]

pub upsert-same_ledger :
    (is_http_url : String → Bool) (user_id : ℕ) (dto : UpsertProfileDto) (now : ℕ) (db : Db)
    → (upsert is_http_url user_id dto now db).1.ledger ≡ db.ledger
upsert-same_ledger is_http_url user_id dto now db =
    elim (upsert-cases is_http_url user_id dto now db) [
      | inl same ↦ rw same refl
      | inr (name, price, high, e) ↦ rw e refl
    ]

pub upsert-same_calls :
    (is_http_url : String → Bool) (user_id : ℕ) (dto : UpsertProfileDto) (now : ℕ) (db : Db)
    → (upsert is_http_url user_id dto now db).1.calls ≡ db.calls
upsert-same_calls is_http_url user_id dto now db =
    elim (upsert-cases is_http_url user_id dto now db) [
      | inl same ↦ rw same refl
      | inr (name, price, high, e) ↦ rw e refl
    ]
