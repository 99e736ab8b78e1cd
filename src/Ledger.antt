-- ===== src/Ledger.antt =====
-- src/ledger/ledger.service.ts: the double-entry ledger. Amounts are whole cents; the unused
-- `metadata` column and the row ids are left out.
pub mod Balance
pub mod Posting
pub mod Solvency
use samy.Prelude.{
  ℕ, suc, Bool, true, false, not, ◌&&◌, ◌==◌, List, [], ◌∷◌, ◌++◌, if◌then◌else◌, any,
}
use samy.Prelude.Int.{ℤ, pos, ◌+ℤ◌, eqb_ℤ}
use samy.Database.Accounts.{Account, account_eq, Group, group_eq}
use samy.Database.Rows.{LedgerEntry, EntryType}
use samy.Database.{Db, Action, Result, ok, err, Error, bad_request, unique_violation}
use samy.Database.{raise_if, modify, pure, ◌>>=◌, ◌>>◌, transaction, query}

pub record LedgerEntryInput : Type 0 where
  pub account : Account
  pub entry_type : EntryType
  pub amount : ℤ

-- `entries.reduce((acc, e) => acc.add(e.amount), 0)`.
abbrev pub total_from : ℤ → List LedgerEntryInput → ℤ
total_from acc [] = acc
total_from acc (e ∷ es) = total_from (acc +ℤ e.amount) es

abbrev pub row_of : ℕ → Group → LedgerEntryInput → LedgerEntry
row_of i group e = record {
  account = e.account;
  entry_type = e.entry_type;
  amount = e.amount;
  transaction_group = group;
  idempotency_index = i;
}

-- `entries.map((e, i) => ({ … }))`, from index `i` on.
abbrev pub rows_from : ℕ → Group → List LedgerEntryInput → List LedgerEntry
rows_from i group [] = []
rows_from i group (e ∷ es) = row_of i group e ∷ rows_from (suc i) group es

-- The unique index on `idempotencyRef`.
abbrev pub same_ref : LedgerEntry → LedgerEntry → Bool
same_ref r e =
    r.idempotency_index == e.idempotency_index && group_eq r.transaction_group e.transaction_group

abbrev pub has_ref : List LedgerEntry → LedgerEntry → Bool
has_ref ledger r = any (same_ref r) ledger

abbrev pub clashes : List LedgerEntry → List LedgerEntry → Bool
clashes rows ledger = any (has_ref ledger) rows

-- `ledgerEntry.createMany({ data })`: all rows or none.
create_many : List LedgerEntry → Action (Unit {0})
create_many rows = do
  raise_if (← query λ db. clashes rows db.ledger) unique_violation
  modify λ db. record db { ledger = rows ++ db.ledger }

-- `postTransaction` with the caller's transaction `tx`.
unfoldable pub post_transaction : Group → List LedgerEntryInput → Action Bool
unfolding create_many
post_transaction group entries = do
  raise_if (not (eqb_ℤ (total_from (pos 0) entries) (pos 0)))
      (bad_request "Transaction does not balance to zero")
  create_many (rows_from 0 group entries)
  pure true

-- The `catch` of the self-managed mode: a unique violation is a replay.
abbrev pub replayed : Result Bool → Result Bool
replayed (err unique_violation) = ok false
replayed r = r

-- `postTransaction` with a transaction of its own.
unfoldable pub post_own_transaction : Group → List LedgerEntryInput → Action Bool
unfolding post_transaction
post_own_transaction group entries db =
    let (r, db') = transaction (post_transaction group entries) db in (replayed r, db')

-- `getBalance`: the sum of the account's amounts, 0 where there is no row.
unfoldable pub balance : Account → List LedgerEntry → ℤ
balance account [] = pos 0
balance account (e ∷ es) =
    let rest = balance account es in if account_eq e.account account then e.amount +ℤ rest else rest

unfoldable pub get_balance : Account → Action ℤ
get_balance account = query λ db. balance account db.ledger
