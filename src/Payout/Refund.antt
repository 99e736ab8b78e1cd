-- ===== src/Payout/Refund.antt =====
-- The money of a payout (src/payout/payout.service.ts and payout.processor.ts): what a request
-- takes, what a failed settlement gives back, and what a late settlement overwrites.
use mathlib.Core.Path.{subst}
use samy.Prelude.{
  ℕ, ◌≡◌, ◌≢◌, refl, ◌∙◌, true, false, some, List, [], ◌∷◌, ◌++◌, String, arith, find_first,
  find_first-any, update_many, ==_refl,
}
use samy.Prelude.Int.{ℤ, ◌+ℤ◌, ◌-ℤ◌, ◌≤ℤ◌, int_laws}
use samy.Database.Accounts.{Account, Group, account_eq, account_eq_refl}
use samy.Database.Rows.{LedgerEntry, Payout, PayoutStatus}
use samy.Database.{Db, Result, ok}
use samy.Database.Queries.{payout_has_id}
use samy.Ledger.{balance, clashes}
use samy.Ledger.Balance.{balance-rows_from}
use samy.Payout.{
  is_approved, new_payout, payout_entries, reversal_entries, request_payout, settle,
  mark_payout_failed,
}
use samy.Payout.Request.{
  RequestOutcome, is_unapproved, is_below, is_short, is_taken, is_clash, is_accepted,
  request_payout-outcome, requested_db, payout_rows,
}
use samy.Payout.Settle.{reversal_rows, settle_refunds}

-- What an accepted request does.
pub record Withdrawal (min_payout : ℤ) (account : Account) (amount : ℤ) (p : Payout)
    (before after : Db) : Type 0 where
  pub was_approved : is_approved account before.kyc_status ≡ true
  pub above_minimum : min_payout ≤ℤ amount
  pub was_covered : amount ≤ℤ balance account before.ledger
  pub is_pending : p.status ≡ PayoutStatus.pending
  pub is_recorded : after.payouts ≡ p ∷ before.payouts
  pub balance_falls : balance account after.ledger ≡ balance account before.ledger -ℤ amount

not_external : (a : Account) → a ≢ Account.external → account_eq Account.external a ≡ false
not_external (Account.client _) ne = refl
not_external (Account.model _) ne = refl
not_external (Account.admin _) ne = refl
not_external Account.platform ne = refl
not_external Account.external ne = absurd (ne refl)

balance-payout_rows :
    (p : Payout) (l : List LedgerEntry)
    → p.account ≢ Account.external
    → balance p.account (payout_rows p ++ l) ≡ balance p.account l -ℤ p.amount
balance-payout_rows p l ne =
    balance-rows_from p.account 0 (Group.payout p.id) (payout_entries p) l
    ∙ grind (int_laws, account_eq_refl p.account, not_external p.account ne)

-- Where `requestPayout` returns a payout of an account other than the external one: the account's
-- identity was approved, the amount was at least the minimum and at most the balance, the payout
-- is PENDING and the only new row, and the balance falls by the amount.
pub request_payout-effect :
    (min_payout : ℤ) (id : ℕ) (account : Account) (amount : ℤ) (pix_key : String) (now : ℕ)
    (db : Db) (p : Payout)
    → account ≢ Account.external
    → (request_payout min_payout id account amount pix_key now db).0 ≡ ok p
    → Withdrawal min_payout account amount p db
        (request_payout min_payout id account amount pix_key now db).1
request_payout-effect min_payout id account amount pix_key now db p ne =
    go (request_payout-outcome min_payout id account amount pix_key now db)
  where
    go :
        {r : Result Payout × Db}
        → RequestOutcome min_payout id account amount pix_key now db r
        → r.0 ≡ ok p
        → Withdrawal min_payout account amount p db r.1
    go (is_unapproved _) h = absurd (ground arith)
    go (is_below _) h = absurd (ground arith)
    go (is_short _) h = absurd (ground arith)
    go (is_taken _) h = absurd (ground arith)
    go (is_clash _) h = absurd (ground arith)
    go (is_accepted approved above covered unused fresh) h = record {
      was_approved = approved;
      above_minimum = ground arith;
      was_covered = ground arith;
      is_pending = ground arith;
      is_recorded = ground arith;
      balance_falls = balance-payout_rows (new_payout id account amount pix_key now) db.ledger ne;
    }

requested-reversal :
    (p : Payout) (l : List LedgerEntry)
    → clashes (reversal_rows p) (payout_rows p ++ l) ≡ clashes (reversal_rows p) l
requested-reversal p l = ground arith

-- A posting and its reversal leave every balance as it was.
balance-reversal :
    (a : Account) (p : Payout) (l : List LedgerEntry)
    → balance a (reversal_rows p ++ (payout_rows p ++ l)) ≡ balance a l
balance-reversal a p l = grind (
  int_laws,
  balance-rows_from a 0 (Group.payout_reversal p.id) (reversal_entries p) (payout_rows p ++ l),
  balance-rows_from a 0 (Group.payout p.id) (payout_entries p) l,
)

-- What a request whose PIX fails comes to.
pub record Refunded (p : Payout) (before after : Db) : Type 0 where
  pub same_balances : (a : Account) → balance a after.ledger ≡ balance a before.ledger
  pub is_failed :
      (q : Payout)
      → find_first (payout_has_id p.id) after.payouts ≡ some q
      → q.status ≡ PayoutStatus.failed

update-failed :
    (id later : ℕ) (ps : List Payout) (q : Payout)
    → find_first (payout_has_id id) (update_many (payout_has_id id) (mark_payout_failed later) ps)
      ≡ some q
    → q.status ≡ PayoutStatus.failed
update-failed id later [] q h = cc
update-failed id later (p ∷ ps) q h = ground (arith, update-failed id later ps q)

-- `p` settled without success after the request of `p`.
Settled : ℕ → Db → Db → Payout → Type 0
Settled later before requested p =
    clashes (reversal_rows p) before.ledger ≡ false
    → ((settle p false later requested).0 ≡ ok tt)
      × Refunded p before (settle p false later requested).1

settle-requested : (later : ℕ) (db : Db) (p : Payout) → Settled later db (requested_db db p) p
unfolding Settled
settle-requested later db p fresh =
    rw
      (settle_refunds p false later (requested_db db p) refl
        (requested-reversal p db.ledger ∙ fresh) (ground (arith, ==_refl p.id)))
      (
        refl,
        record {
          same_balances = λ a. balance-reversal a p db.ledger;
          is_failed = λ q. update-failed p.id later (p ∷ db.payouts) q;
        },
      )

-- Where `requestPayout` returns a payout whose reversal has not been posted, and `sendPix` fails in
-- `settle`: the settlement returns, every account has the balance it had before the request, and
-- the payout found under the id is FAILED.
pub request_payout-settle :
    (min_payout : ℤ) (id : ℕ) (account : Account) (amount : ℤ) (pix_key : String) (now later : ℕ)
    (db : Db) (p : Payout)
    → clashes (reversal_rows p) db.ledger ≡ false
    → (request_payout min_payout id account amount pix_key now db).0 ≡ ok p
    → ((settle p false later (request_payout min_payout id account amount pix_key now db).1).0
        ≡ ok tt)
      × Refunded p db
          (settle p false later (request_payout min_payout id account amount pix_key now db).1).1
unfolding Settled
request_payout-settle min_payout id account amount pix_key now later db p fresh =
    go (request_payout-outcome min_payout id account amount pix_key now db)
  where
    asked : Payout
    asked = new_payout id account amount pix_key now

    go :
        {r : Result Payout × Db}
        → RequestOutcome min_payout id account amount pix_key now db r
        → r.0 ≡ ok p
        → ((settle p false later r.1).0 ≡ ok tt) × Refunded p db (settle p false later r.1).1
    go (is_unapproved _) h = absurd (ground arith)
    go (is_below _) h = absurd (ground arith)
    go (is_short _) h = absurd (ground arith)
    go (is_taken _) h = absurd (ground arith)
    go (is_clash _) h = absurd (ground arith)
    go (is_accepted approved above covered unused fresh') h =
        subst (Settled later db (requested_db db asked)) (ground arith)
          (settle-requested later db asked) fresh

find-failed :
    (id now : ℕ) (ps : List Payout) (q : Payout)
    → find_first (payout_has_id id) ps ≡ some q
    → find_first (payout_has_id id) (update_many (payout_has_id id) (mark_payout_failed now) ps)
      ≡ some (mark_payout_failed now q)
find-failed id now [] q h = cc
find-failed id now (p ∷ ps) q h = ground (arith, find-failed id now ps q)

-- A payout that another worker has already settled: where the payout found under the id is PAID,
-- and a worker that still holds it sees its own `sendPix` fail, the worker's `settle` makes it
-- FAILED and credits the account of a payout that was paid (other than the external account)
-- with its amount.
pub settle-overwrites :
    (p : Payout) (now : ℕ) (db : Db) (q : Payout)
    → p.account ≢ Account.external
    → find_first (payout_has_id p.id) db.payouts ≡ some q
    → q.status ≡ PayoutStatus.paid
    → clashes (reversal_rows p) db.ledger ≡ false
    → (find_first (payout_has_id p.id) (settle p false now db).1.payouts
        ≡ some (mark_payout_failed now q))
      × (balance p.account (settle p false now db).1.ledger
          ≡ balance p.account db.ledger +ℤ p.amount)
settle-overwrites p now db q ne e paid fresh =
    rw
      (settle_refunds p false now db refl fresh
        (find_first-any (payout_has_id p.id) db.payouts q e))
      (
        find-failed p.id now db.payouts q e,
        balance-rows_from p.account 0 (Group.payout_reversal p.id) (reversal_entries p) db.ledger
            ∙ grind (int_laws, account_eq_refl p.account, not_external p.account ne),
      )
