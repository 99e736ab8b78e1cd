-- ===== src/Database/Accounts.antt =====
-- The account names and transaction groups that the services build as template strings.
-- `client:${id}`, `model:${id}`, `admin:${id}`, `platform` and `source:external` are different
-- texts for different constructors or ids, so each is a constructor over the id.
use samy.Prelude.{ℕ, ◌≡◌, refl, Bool, true, false, ◌&&◌, ◌==◌, arith}

pub data Account : Type 0 where
  client : ℕ → Account
  model : ℕ → Account
  admin : ℕ → Account
  platform : Account
  external : Account

pub data Group : Type 0 where
  recharge : ℕ → Group
  call_minute : ℕ → ℕ → Group
  gift : ℕ → Group
  payout : ℕ → Group
  payout_reversal : ℕ → Group
  dev_earn : Account → ℕ → Group

abbrev pub account_eq : Account → Account → Bool
account_eq (Account.client a) (Account.client b) = a == b
account_eq (Account.model a) (Account.model b) = a == b
account_eq (Account.admin a) (Account.admin b) = a == b
account_eq Account.platform Account.platform = true
account_eq Account.external Account.external = true
account_eq _ _ = false

abbrev pub group_eq : Group → Group → Bool
group_eq (Group.recharge a) (Group.recharge b) = a == b
group_eq (Group.call_minute a m) (Group.call_minute b n) = a == b && m == n
group_eq (Group.gift a) (Group.gift b) = a == b
group_eq (Group.payout a) (Group.payout b) = a == b
group_eq (Group.payout_reversal a) (Group.payout_reversal b) = a == b
group_eq (Group.dev_earn a m) (Group.dev_earn b n) = account_eq a b && m == n
group_eq _ _ = false

pub account_eq_sound : (a b : Account) → account_eq a b ≡ true → a ≡ b
account_eq_sound (Account.client a) (Account.client b) h = ground arith
account_eq_sound (Account.model a) (Account.model b) h = ground arith
account_eq_sound (Account.admin a) (Account.admin b) h = ground arith
account_eq_sound Account.platform Account.platform h = refl
account_eq_sound Account.external Account.external h = refl
account_eq_sound _ _ h = cc

pub account_eq_refl : (a : Account) → account_eq a a ≡ true
account_eq_refl (Account.client a) = ground arith
account_eq_refl (Account.model a) = ground arith
account_eq_refl (Account.admin a) = ground arith
account_eq_refl Account.platform = refl
account_eq_refl Account.external = refl

pub group_eq_refl : (g : Group) → group_eq g g ≡ true
group_eq_refl (Group.recharge a) = ground arith
group_eq_refl (Group.call_minute a m) = ground arith
group_eq_refl (Group.gift a) = ground arith
group_eq_refl (Group.payout a) = ground arith
group_eq_refl (Group.payout_reversal a) = ground arith
group_eq_refl (Group.dev_earn a m) = ground (arith, account_eq_refl a)

pub group_eq_sound : (g h : Group) → group_eq g h ≡ true → g ≡ h
group_eq_sound (Group.recharge a) (Group.recharge b) e = ground arith
group_eq_sound (Group.call_minute a m) (Group.call_minute b n) e = ground arith
group_eq_sound (Group.gift a) (Group.gift b) e = ground arith
group_eq_sound (Group.payout a) (Group.payout b) e = ground arith
group_eq_sound (Group.payout_reversal a) (Group.payout_reversal b) e = ground arith
group_eq_sound (Group.dev_earn a m) (Group.dev_earn b n) e = ground (arith, account_eq_sound a b)
group_eq_sound _ _ e = cc
