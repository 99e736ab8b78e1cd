-- ===== src/System/Bank/Postings.antt =====
-- The groups of entries that the services post, as movements of the bank.
use mathlib.Core.Path.{subst}
use samy.Prelude.{ℕ, ◌≡◌, ◌≢◌, refl, ◌∙◌, List, ◌++◌, Bool-cases, inl, inr}
use samy.Prelude.Int.{ℤ, pos, neg, ◌+ℤ◌, ◌-ℤ◌, ◌≤ℤ◌, int_laws}
use samy.Database.Accounts.{Account, Group, account_eq, account_eq_sound}
use samy.Database.Rows.{EntryType, LedgerEntry}
use samy.Ledger.{LedgerEntryInput, balance, rows_from}
use samy.Ledger.Balance.{balance-rows_from, moved}
use samy.Ledger.Solvency.{outside_entries, sale_entries, account_ne}
use samy.Billing.TakeRate.{compute_split, compute_split-nonneg, compute_split-sum}
use samy.Billing.{split_entries}
use samy.System.Sound.{IsRate}
use samy.System.Bank.{
  IsPermitted, Bank, IsDeposit, IsSale, IsWithdrawal, Moved, Movement, credit, moved_by,
}

-- The balances that a ledger shows.
abbrev pub bank_of : List LedgerEntry → Bank
bank_of l a = balance a l

credit-deposit :
    (account a : Account) (t u : EntryType) (amount : ℤ)
    → account ≢ Account.external
    → moved a (outside_entries account t u amount (neg amount))
      ≡ credit (Movement.deposit account amount) a
credit-deposit account a t u amount inside = elim (Bool-cases (account_eq account a)) [
  | inl same ↦
      rw (same, account_ne Account.external a (λ e. inside (account_eq_sound account a same ∙ e)))
        (omega int_laws)
  | inr differ ↦ elim (Bool-cases (account_eq Account.external a)) [
    | inl out ↦ rw (differ, out) (omega int_laws)
    | inr other ↦ rw (differ, other) refl
  ]
]

credit-withdraw :
    (account a : Account) (t u : EntryType) (amount : ℤ)
    → account ≢ Account.external
    → moved a (outside_entries account t u (neg amount) amount)
      ≡ credit (Movement.withdraw account amount) a
credit-withdraw account a t u amount inside = elim (Bool-cases (account_eq account a)) [
  | inl same ↦
      rw (same, account_ne Account.external a (λ e. inside (account_eq_sound account a same ∙ e)))
        (omega int_laws)
  | inr differ ↦ elim (Bool-cases (account_eq Account.external a)) [
    | inl out ↦ rw (differ, out) (omega int_laws)
    | inr other ↦ rw (differ, other) refl
  ]
]

credit-sale :
    (c m : ℕ) (t u : EntryType) (price share commission : ℤ) (a : Account)
    → commission +ℤ share ≡ price
    → moved a (sale_entries c m t u price share commission)
      ≡ credit (Movement.sale c m price share) a
credit-sale c m t u price share commission (Account.client k) sum = grind int_laws
credit-sale c m t u price share commission (Account.model k) sum = grind int_laws
credit-sale c m t u price share commission (Account.admin k) sum = refl
credit-sale c m t u price share commission Account.platform sum =
    subst (λ p. commission +ℤ pos 0 ≡ p -ℤ share) sum (omega int_laws)
credit-sale c m t u price share commission Account.external sum = refl

-- One posting is one movement.
posted-Moved :
    (P : Movement → Type 0) (m : Movement) (group : Group) (es : List LedgerEntryInput)
    (l : List LedgerEntry)
    → P m
    → IsPermitted m (bank_of l)
    → ((a : Account) → moved a es ≡ credit m a)
    → Moved P (bank_of l) (bank_of (rows_from 0 group es ++ l))
posted-Moved P m group es l kind ok same =
    moved_by m kind ok (λ a. rw (balance-rows_from a 0 group es l, same a) refl)

pub IsDeposit-posted :
    (account : Account) (t u : EntryType) (amount : ℤ) (group : Group) (l : List LedgerEntry)
    → account ≢ Account.external
    → pos 0 ≤ℤ amount
    → Moved
        (IsDeposit account amount)
        (bank_of l)
        (bank_of (rows_from 0 group (outside_entries account t u amount (neg amount)) ++ l))
IsDeposit-posted account t u amount group l inside least =
    posted-Moved (IsDeposit account amount) (Movement.deposit account amount) group
      (outside_entries account t u amount (neg amount)) l (refl, refl) (inside, least)
      (λ a. credit-deposit account a t u amount inside)

pub IsWithdrawal-posted :
    (account : Account) (t u : EntryType) (amount : ℤ) (group : Group) (l : List LedgerEntry)
    → account ≢ Account.external
    → pos 0 ≤ℤ amount
    → amount ≤ℤ balance account l
    → Moved
        (IsWithdrawal account amount)
        (bank_of l)
        (bank_of (rows_from 0 group (outside_entries account t u (neg amount) amount) ++ l))
IsWithdrawal-posted account t u amount group l inside least enough =
    posted-Moved (IsWithdrawal account amount) (Movement.withdraw account amount) group
      (outside_entries account t u (neg amount) amount) l (refl, refl) (inside, least, enough)
      (λ a. credit-withdraw account a t u amount inside)

share_le :
    (price share commission : ℤ)
    → pos 0 ≤ℤ commission
    → commission +ℤ share ≡ price
    → share ≤ℤ price
share_le price share commission h sum = subst (λ p. share ≤ℤ p) sum (omega (int_laws, h))

pub IsSale-posted :
    (c m : ℕ) (t u : EntryType) (price rate : ℤ) (group : Group) (l : List LedgerEntry)
    → pos 0 ≤ℤ price
    → IsRate rate
    → price ≤ℤ balance (Account.client c) l
    → Moved
        (IsSale c m price)
        (bank_of l)
        (bank_of (rows_from 0 group (split_entries c m t u price (compute_split price rate)) ++ l))
IsSale-posted c m t u price rate group l least is_rate enough =
    let parts = compute_split-nonneg price rate least is_rate.0 is_rate.1 in
    let sum = compute_split-sum price rate in
    posted-Moved (IsSale c m price) (Movement.sale c m price (compute_split price rate).model_share)
      group (split_entries c m t u price (compute_split price rate)) l (refl, refl, refl)
      (parts.1, share_le price _ _ parts.0 sum, enough) (λ a. credit-sale c m t u price _ _ a sum)
