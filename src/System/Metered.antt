-- ===== src/System/Metered.antt =====
-- What was billed and what was paid: the minutes that a call counts (src/scheduler,
-- src/billing/billing.service.ts) against the ledger's rows for it.
pub mod Steps
pub mod Services
pub mod Histories
use samy.Prelude.{
  ℕ, zero, suc, ◌≡◌, refl, ◌∙◌, ◌==◌, ==_refl, ==_iff, Bool, true, false, ◌&&◌, List, [], ◌∷◌, ◌++◌,
  arith, any, find_first, update_many, map, some, All, Bool-cases, inl, inr, if◌then◌else◌,
}
use samy.Prelude.Int.{ℤ, pos, neg, ◌+ℤ◌, int_laws}
use samy.Database.Accounts.{Group}
use samy.Database.Rows.{Call, LedgerEntry}
use samy.Ledger.{LedgerEntryInput, rows_from}
use samy.Calls.Bills.{Bill, bills}
use samy.Taximeter.CatchUp.{times}

abbrev pub is_minute_of : ℕ → Group → Bool
is_minute_of id (Group.call_minute c m) = c == id
is_minute_of id _ = false

-- The first row of a minute's group is the client's debit.
abbrev pub is_debit_of : ℕ → LedgerEntry → Bool
is_debit_of id e = e.idempotency_index == 0 && is_minute_of id e.transaction_group

-- The sum of the debits for the minutes of a call.
unfoldable pub debits : ℕ → List LedgerEntry → ℤ
debits id [] = pos 0
debits id (e ∷ es) = let rest = debits id es in if is_debit_of id e then e.amount +ℤ rest else rest

abbrev pub has_bill : ℕ → Bill → Bool
has_bill id b = b.id == id

abbrev pub IsPaid : List LedgerEntry → Bill → Type 0
IsPaid l b = debits b.id l +ℤ times b.minutes b.price ≡ pos 0

-- What the ledger has taken for a call is its price for every billed minute, and nothing has been
-- taken for a call that is not there.
pub record IsMetered (l : List LedgerEntry) (bs : List Bill) : Type 0 where
  pub paid : All (IsPaid l) bs
  pub others : (id : ℕ) → any (has_bill id) bs ≡ false → debits id l ≡ pos 0

-- A group that is not a minute's changes no call's debits.
pub debits-other :
    (id i : ℕ) (group : Group) (es : List LedgerEntryInput) (l : List LedgerEntry)
    → is_minute_of id group ≡ false
    → debits id (rows_from i group es ++ l) ≡ debits id l
unfolding debits
debits-other id i group [] l h = refl
debits-other id i group (e ∷ es) l h = ground (arith, debits-other id (suc i) group es l h)

-- The rows behind the first are no debits.
debits-tail :
    (id i : ℕ) (group : Group) (es : List LedgerEntryInput) (l : List LedgerEntry)
    → debits id (rows_from (suc i) group es ++ l) ≡ debits id l
unfolding debits
debits-tail id i group [] l = refl
debits-tail id i group (e ∷ es) l = ground (arith, debits-tail id (suc i) group es l)

pub debits-minute :
    (id c m : ℕ) (e : LedgerEntryInput) (es : List LedgerEntryInput) (l : List LedgerEntry)
    → debits id (rows_from 0 (Group.call_minute c m) (e ∷ es) ++ l)
      ≡ (if c == id then e.amount +ℤ debits id l else debits id l)
unfolding debits
debits-minute id c m e es l = ground (arith, debits-tail id 0 (Group.call_minute c m) es l)

All-same :
    (l l' : List LedgerEntry) (bs : List Bill)
    → ((id : ℕ) → debits id l' ≡ debits id l)
    → All (IsPaid l) bs
    → All (IsPaid l') bs
All-same l l' [] e h = tt
All-same l l' (b ∷ bs) e h = (rw (e b.id) h.0, All-same l l' bs e h.1)

pub IsMetered-same :
    (l l' : List LedgerEntry) (bs : List Bill)
    → ((id : ℕ) → debits id l' ≡ debits id l)
    → IsMetered l bs
    → IsMetered l' bs
IsMetered-same l l' bs e k = record {
  paid = All-same l l' bs e k.paid;
  others = λ id h. e id ∙ k.others id h;
}

pub IsMetered-posted :
    (i : ℕ) (group : Group) (es : List LedgerEntryInput) (l : List LedgerEntry) (bs : List Bill)
    → ((id : ℕ) → is_minute_of id group ≡ false)
    → IsMetered l bs
    → IsMetered (rows_from i group es ++ l) bs
IsMetered-posted i group es l bs h =
    IsMetered-same l _ bs (λ id. debits-other id i group es l (h id))
