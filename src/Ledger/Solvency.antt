-- ===== src/Ledger/Solvency.antt =====
-- No account but the outside source is overdrawn: what a posting of src/ledger/ledger.service.ts
-- needs for that, for the two shapes of entries that the services write.
use samy.Prelude.{
  ℕ, ◌≡◌, ◌≢◌, refl, sym, ap, ◌==◌, ==_iff, false, List, [], ◌∷◌, ◌++◌, Bool-cases, inl, inr,
}
use samy.Prelude.Int.{ℤ, pos, neg, ◌+ℤ◌, ◌≤ℤ◌, int_laws}
use samy.Database.Accounts.{Account, Group, account_eq, account_eq_sound}
use samy.Database.Rows.{EntryType, LedgerEntry}
use samy.Ledger.{LedgerEntryInput, balance, rows_from}
use samy.Ledger.Balance.{balance-rows_from, moved}

abbrev pub IsSolvent : List LedgerEntry → Type 0
IsSolvent l = (a : Account) → a ≢ Account.external → pos 0 ≤ℤ balance a l

-- Money that moves between an account and the outside, `amount` into the account.
abbrev pub outside_entries : Account → EntryType → EntryType → ℤ → ℤ → List LedgerEntryInput
outside_entries account t u amount offset =
    record { account = account; entry_type = t; amount = amount }
    ∷ record { account = Account.external; entry_type = u; amount = offset }
    ∷ []

pub account_ne : (a b : Account) → b ≢ a → account_eq a b ≡ false
account_ne a b ne = elim (Bool-cases (account_eq a b)) [
  | inl same ↦ absurd (ne (sym (account_eq_sound a b same)))
  | inr differ ↦ differ
]

pub outside-IsSolvent :
    (account : Account) (t u : EntryType) (amount offset : ℤ) (group : Group) (l : List LedgerEntry)
    → account ≢ Account.external
    → pos 0 ≤ℤ amount +ℤ balance account l
    → IsSolvent l
    → IsSolvent (rows_from 0 group (outside_entries account t u amount offset) ++ l)
outside-IsSolvent account t u amount offset group l inside enough s a ne =
    rw
      (
        balance-rows_from a 0 group (outside_entries account t u amount offset) l,
        account_ne Account.external a ne,
      )
      (elim (Bool-cases (account_eq account a)) [
        | inl same ↦ rw same (
            grind (
              int_laws,
              enough,
              ap (λ (b : Account). balance b l) (account_eq_sound account a same),
            ))
        | inr differ ↦ rw differ (omega (int_laws, s a ne))
      ])

-- The entries of a sale: the client pays the price, the model and the platform share it.
abbrev pub sale_entries : ℕ → ℕ → EntryType → EntryType → ℤ → ℤ → ℤ → List LedgerEntryInput
sale_entries client_id model_id debit earning price share commission =
    record { account = Account.client client_id; entry_type = debit; amount = neg price }
    ∷ record { account = Account.model model_id; entry_type = earning; amount = share }
    ∷ record { account = Account.platform; entry_type = EntryType.comissao; amount = commission }
    ∷ []

pub sale-IsSolvent :
    (client_id model_id : ℕ) (debit earning : EntryType) (price share commission : ℤ)
    (group : Group) (l : List LedgerEntry)
    → price ≤ℤ balance (Account.client client_id) l
    → pos 0 ≤ℤ share
    → pos 0 ≤ℤ commission
    → IsSolvent l
    → IsSolvent (
        rows_from 0 group (sale_entries client_id model_id debit earning price share commission)
        ++ l)
sale-IsSolvent c m t u price share commission group l enough sh co s a ne =
    rw (balance-rows_from a 0 group (sale_entries c m t u price share commission) l)
      (at_account a ne)
  where
    at_account :
        (a : Account)
        → a ≢ Account.external
        → pos 0 ≤ℤ moved a (sale_entries c m t u price share commission) +ℤ balance a l
    at_account (Account.client k) ne = elim (Bool-cases (c == k)) [
      | inl same ↦
          grind
            (int_laws, enough, ap (λ (i : ℕ). balance (Account.client i) l) ((==_iff c k).0 same))
      | inr differ ↦ grind (int_laws, s (Account.client k) ne)
    ]
    at_account (Account.model k) ne = grind (int_laws, s (Account.model k) ne)
    at_account (Account.admin k) ne = grind (int_laws, s (Account.admin k) ne)
    at_account Account.platform ne = grind (int_laws, s Account.platform ne)
    at_account Account.external ne = absurd (ne refl)
