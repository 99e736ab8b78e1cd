-- ===== src/Ledger/Posting.antt =====
-- What `postTransaction` of src/ledger/ledger.service.ts does to the rows: the invariant of the
-- ledger, and the idempotency of a transaction group.
use samy.Prelude.{
  ℕ, suc, ◌≤◌, ◌≡◌, inl, inr, true, false, List, [], ◌∷◌, ◌++◌, arith, Bool-cases, if◌then◌else◌,
}
use samy.Prelude.Int.{pos, zero_+ℤ, eqb_ℤ, eqb_ℤ_sound}
use samy.Database.Accounts.{Group, group_eq_refl}
use samy.Database.Rows.{LedgerEntry}
use samy.Database.{Db, ok, err, bad_request, unique_violation}
use samy.Ledger.{
  LedgerEntryInput, total_from, row_of, rows_from, has_ref, clashes, post_transaction,
  post_own_transaction,
}
use samy.Ledger.Balance.{ledger_total, ledger_total-rows_from}

abbrev pub UniqueRefs : List LedgerEntry → Type 0
UniqueRefs [] = Unit
UniqueRefs (e ∷ es) = (has_ref es e ≡ false) × UniqueRefs es

-- Money neither appears nor vanishes, and no idempotency reference is used twice.
pub record IsBooked (l : List LedgerEntry) : Type 0 where
  pub zero_sum : ledger_total l ≡ pos 0
  pub unique_refs : UniqueRefs l

-- How a call may change the ledger: not at all, or by one balanced group with fresh references.
pub data Posts (l l' : List LedgerEntry) : Type 0 where
  same : l' ≡ l → Posts l l'
  posted :
      (group : Group) (es : List LedgerEntryInput)
      → total_from (pos 0) es ≡ pos 0
      → clashes (rows_from 0 group es) l ≡ false
      → l' ≡ rows_from 0 group es ++ l
      → Posts l l'

-- The rows of one group differ in their indices.
has_ref-rows_from :
    (r : LedgerEntry) (i : ℕ) (group : Group) (es : List LedgerEntryInput) (l : List LedgerEntry)
    → suc r.idempotency_index ≤ i
    → has_ref l r ≡ false
    → has_ref (rows_from i group es ++ l) r ≡ false
has_ref-rows_from r i group [] l h fresh = fresh
has_ref-rows_from r i group (e ∷ es) l h fresh =
    ground (arith, has_ref-rows_from r (suc i) group es l)

UniqueRefs-rows_from :
    (i : ℕ) (group : Group) (es : List LedgerEntryInput) (l : List LedgerEntry)
    → clashes (rows_from i group es) l ≡ false
    → UniqueRefs l
    → UniqueRefs (rows_from i group es ++ l)
UniqueRefs-rows_from i group [] l fresh u = u
UniqueRefs-rows_from i group (e ∷ es) l fresh u = (
  has_ref-rows_from (row_of i group e) (suc i) group es l (omega arith) (ground arith),
  UniqueRefs-rows_from (suc i) group es l (ground arith) u,
)

pub Posts-IsBooked : {l l' : List LedgerEntry} → Posts l l' → IsBooked l → IsBooked l'
Posts-IsBooked (same e) b = rw e b
Posts-IsBooked {l} (posted group es balanced fresh e) b = rw e (record {
  zero_sum = cc (
    zero_+ℤ (ledger_total (rows_from 0 group es ++ l)),
    ledger_total-rows_from 0 group es (pos 0) l,
    b.zero_sum,
    zero_+ℤ (pos 0),
  );
  unique_refs = UniqueRefs-rows_from 0 group es l fresh b.unique_refs;
})

-- Every outcome of `post_transaction`, in one equation.
pub post_transaction_lem :
    (group : Group) (es : List LedgerEntryInput) (db : Db)
    → post_transaction group es db ≡ (
        if eqb_ℤ (total_from (pos 0) es) (pos 0)
        then (if clashes (rows_from 0 group es) db.ledger
            then (err unique_violation, db)
            else (ok true, record db { ledger = rows_from 0 group es ++ db.ledger }))
        else (err (bad_request "Transaction does not balance to zero"), db))
unfolding post_transaction
post_transaction_lem group es db = ground arith

pub post_transaction-Posts :
    (group : Group) (es : List LedgerEntryInput) (db : Db)
    → Posts db.ledger (post_transaction group es db).1.ledger
post_transaction-Posts group es db = elim (Bool-cases (eqb_ℤ (total_from (pos 0) es) (pos 0))) [
  | inr open_ ↦ same (rw (post_transaction_lem group es db, open_))
  | inl balanced ↦ elim (Bool-cases (clashes (rows_from 0 group es) db.ledger)) [
    | inl clash ↦ same (rw (post_transaction_lem group es db, balanced, clash))
    | inr fresh ↦
        posted group es (eqb_ℤ_sound _ _ balanced) fresh
          (rw (post_transaction_lem group es db, balanced, fresh))
  ]
]

-- After a group was posted with at least one entry, in a transaction of its own, posting it again
-- that way with at least one entry and whatever balanced entries is answered `posted: false` and
-- changes nothing.
pub post_own_transaction-replay :
    (group : Group) (e e' : LedgerEntryInput) (es es' : List LedgerEntryInput) (db : Db)
    → (post_own_transaction group (e ∷ es) db).0 ≡ ok true
    → total_from (pos 0) (e' ∷ es') ≡ pos 0
    → let db' = (post_own_transaction group (e ∷ es) db).1 in
      post_own_transaction group (e' ∷ es') db' ≡ (ok false, db')
unfolding post_own_transaction
post_own_transaction-replay group e e' es es' db done balanced = ground (arith, group_eq_refl group)
