-- ===== src/Ledger/Balance.antt =====
-- Sums over the ledger of src/ledger/ledger.service.ts: the total of all rows, and an account's
-- balance when rows are added.
use samy.Prelude.{ℕ, suc, ◌≡◌, refl, List, [], ◌∷◌, ◌++◌, ◌∙◌, if◌then◌else◌}
use samy.Prelude.Int.{ℤ, pos, ◌+ℤ◌, int_laws, +ℤ_assoc}
use samy.Database.Accounts.{Account, Group, account_eq}
use samy.Database.Rows.{LedgerEntry}
use samy.Ledger.{LedgerEntryInput, total_from, rows_from, balance}

-- The total of every row: money that has entered less money that has left.
abbrev pub ledger_total : List LedgerEntry → ℤ
ledger_total [] = pos 0
ledger_total (e ∷ es) = e.amount +ℤ ledger_total es

-- What the inputs add to one account.
abbrev pub moved : Account → List LedgerEntryInput → ℤ
moved account [] = pos 0
moved account (e ∷ es) =
    let rest = moved account es in if account_eq e.account account then e.amount +ℤ rest else rest

pub ledger_total-rows_from :
    (i : ℕ) (group : Group) (es : List LedgerEntryInput) (acc : ℤ) (l : List LedgerEntry)
    → acc +ℤ ledger_total (rows_from i group es ++ l) ≡ total_from acc es +ℤ ledger_total l
ledger_total-rows_from i group [] acc l = refl
ledger_total-rows_from i group (e ∷ es) acc l =
    +ℤ_assoc acc e.amount (ledger_total (rows_from (suc i) group es ++ l))
    ∙ ledger_total-rows_from (suc i) group es (acc +ℤ e.amount) l

pub balance-rows_from :
    (a : Account) (i : ℕ) (group : Group) (es : List LedgerEntryInput) (l : List LedgerEntry)
    → balance a (rows_from i group es ++ l) ≡ moved a es +ℤ balance a l
unfolding balance
balance-rows_from a i group [] l = omega int_laws
balance-rows_from a i group (e ∷ es) l = grind (int_laws, balance-rows_from a (suc i) group es l)
