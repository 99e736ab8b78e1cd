-- ===== src/Ranking.antt =====
-- src/ranking/ranking.ts and ranking.service.ts: the tier table, the tier of an amount earned,
-- and the ledger queries of `RankingService`. Thresholds are cents, rates ten-thousandths.
pub mod Tiers
pub mod Top
use samy.Prelude.{
  ℕ, zero, suc, ◌≡◌, refl, Bool, true, false, ◌&&◌, Option, none, some, List, [], ◌∷◌, ◌==◌, length,
  if◌then◌else◌,
}
use samy.Prelude.Int.{ℤ, pos, ◌+ℤ◌, ◌-ℤ◌, leb_ℤ, ltb_ℤ}
use samy.Database.Accounts.{Account, account_eq}
use samy.Database.Rows.{LedgerEntry}
use samy.Database.{Action, query}

pub data Tier : Type 0 where
  bronze prata ouro diamante : Tier

pub record TierRow : Type 0 where
  pub tier : Tier
  pub min : ℤ
  pub rate : ℤ

pub record TierInfo : Type 0 where
  pub tier : Tier
  pub rate : ℤ
  pub next_tier : Option Tier
  pub next_threshold : Option ℤ
  pub remaining : Option ℤ

-- A part of a comma-separated list, trimmed: empty, not a number to `Number`, or a number.
pub data Part : Type 0 where
  blank : Part
  nan : Part
  num : ℤ → Part

all_numbers : List Part → Option (List ℤ)
all_numbers [] = some []
all_numbers (Part.num n ∷ ps) = elim (all_numbers ps) [ none ↦ none | some ns ↦ some (n ∷ ns) ]
all_numbers (_ ∷ ps) = none

-- `parseList`: `none` for an unset or empty variable, a wrong count or a bad part.
unfoldable pub parse_list : Option (List Part) → ℕ → Option (List ℤ)
unfolding all_numbers
parse_list none expected = none
parse_list (some parts) expected = if length parts == expected then all_numbers parts else none

abbrev pub default_thresholds : List ℤ
default_thresholds = pos 0 ∷ pos 50000 ∷ pos 200000 ∷ pos 1000000 ∷ []

abbrev pub default_rates : List ℤ
default_rates = pos 3000 ∷ pos 2500 ∷ pos 2000 ∷ pos 1500 ∷ []

-- `Decimal.min`.
abbrev pub min_ℤ : ℤ → ℤ → ℤ
min_ℤ a b = if leb_ℤ a b then a else b

abbrev pub get_or_zero : List ℤ → ℕ → ℤ
get_or_zero [] i = pos 0
get_or_zero (x ∷ xs) zero = x
get_or_zero (x ∷ xs) (suc i) = get_or_zero xs i

abbrev or_default : Option (List ℤ) → List ℤ → List ℤ
or_default none d = d
or_default (some l) d = l

-- The function given to `TIER_ORDER.map`: BRONZE takes the global rate, no tier exceeds it.
abbrev tier_row : ℤ → List ℤ → List ℤ → Tier → ℕ → TierRow
tier_row global_rate th rt tier i =
    let target = if i == 0 then global_rate else get_or_zero rt i in
    record { tier = tier; min = get_or_zero th i; rate = min_ℤ global_rate target }

-- `loadTierTable`, over the two environment variables split into parts.
unfoldable pub load_tier_table : ℤ → Option (List Part) → Option (List Part) → List TierRow
unfolding parse_list
load_tier_table global_rate thresholds rates =
    let th = or_default (parse_list thresholds 4) default_thresholds in
    let rt = or_default (parse_list rates 4) default_rates in
    tier_row global_rate th rt Tier.bronze 0
    ∷ tier_row global_rate th rt Tier.prata 1
    ∷ tier_row global_rate th rt Tier.ouro 2
    ∷ tier_row global_rate th rt Tier.diamante 3
    ∷ []

-- The loop of `tierForEarnings`: the index of the last row that is reached.
abbrev pub last_reached : ℤ → ℕ → ℕ → List TierRow → ℕ
last_reached earned i idx [] = idx
last_reached earned i idx (row ∷ rows) =
    last_reached earned (suc i) (if leb_ℤ row.min earned then i else idx) rows

abbrev pub get_elem? {ℓ} : {A : Type ℓ} → List A → ℕ → Option A
get_elem? [] i = none
get_elem? (x ∷ xs) zero = some x
get_elem? (x ∷ xs) (suc i) = get_elem? xs i

abbrev pub info_of : ℤ → TierRow → Option TierRow → TierInfo
info_of earned row none = record {
  tier = row.tier;
  rate = row.rate;
  next_tier = none;
  next_threshold = none;
  remaining = none;
}
info_of earned row (some next) = record {
  tier = row.tier;
  rate = row.rate;
  next_tier = some next.tier;
  next_threshold = some next.min;
  remaining = some (next.min -ℤ earned);
}

-- The part of `tierForEarnings` behind its loop; `none` where `table[idx]` is undefined, so only
-- for an empty table.
abbrev pub info_at : ℤ → List TierRow → ℕ → Option TierInfo
info_at earned table idx = elim (get_elem? table idx) [
  | none ↦ none
  | some row ↦ some (info_of earned row (get_elem? table (suc idx)))
]

unfoldable pub tier_for_earnings : ℤ → List TierRow → Option TierInfo
tier_for_earnings earned table = info_at earned table (last_reached earned 0 0 table)

-- `grossEarned`: what the model's account has received.
unfoldable pub gross_earned : ℕ → List LedgerEntry → ℤ
gross_earned model_id [] = pos 0
gross_earned model_id (e ∷ es) =
    let rest = gross_earned model_id es in
    if account_eq e.account (Account.model model_id) && ltb_ℤ (pos 0) e.amount
    then e.amount +ℤ rest
    else rest

-- `tierRateFor`, at the table that the service loaded when it was built.
unfoldable pub tier_rate_for : List TierRow → ℕ → List LedgerEntry → Option ℤ
tier_rate_for table model_id ledger =
    elim (tier_for_earnings (gross_earned model_id ledger) table) [
      | none ↦ none
      | some info ↦ some info.rate
    ]

-- `myRanking`, before its numbers become text; `none` only for an empty table.
unfoldable pub my_ranking : List TierRow → ℕ → Action (Option (ℤ × TierInfo))
my_ranking table model_id = query λ db.
    elim (tier_for_earnings (gross_earned model_id db.ledger) table) [
      | none ↦ none
      | some info ↦ some (gross_earned model_id db.ledger, info)
    ]
