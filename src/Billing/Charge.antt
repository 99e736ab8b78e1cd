-- ===== src/Billing/Charge.antt =====
-- What `chargeMinute` (src/billing/billing.service.ts) does, by its outcomes.
use samy.Prelude.{
  ℕ, suc, ◌≡◌, refl, true, false, none, some, List, [], ◌∷◌, ◌++◌, arith, map, any, Bool-cases,
  Option-cases, inl, inr, find_first-any, update_many,
}
use samy.Prelude.Int.{ℤ, pos, ltb_ℤ, int_laws}
use samy.Database.Accounts.{Account, Group}
use samy.Database.Rows.{Call, EntryType, LedgerEntry, is_active}
use mathlib.Core.Path.{subst, sym}
use samy.Database.{transaction, Db, Result, ok, err, internal}
use samy.Database.Queries.{call_has_id, find_call, find_profile}
use samy.Ledger.{LedgerEntryInput, row_of, rows_from, total_from, has_ref, clashes, balance}
use samy.Ledger.Posting.{post_transaction_lem}
use samy.Ranking.{TierRow, tier_rate_for}
use samy.Billing.TakeRate.{resolve_take_rate, compute_split, compute_split-sum}
use samy.Billing.{
  ChargeResult, charged, already_charged, ended, not_active, call_not_found, has_group, override_of,
  split_entries, end_no_credits, bill_one, charge_active, charge_minute,
}

-- A group that has no row in the ledger has no reference in use.
has_group-has_ref :
    (l : List LedgerEntry) (r : LedgerEntry)
    → has_group r.transaction_group l ≡ false
    → has_ref l r ≡ false
has_group-has_ref [] r h = refl
has_group-has_ref (e ∷ l) r h = ground (arith, has_group-has_ref l r)

-- The entries of a split balance, whatever the rate.
pub split_entries-balanced :
    (client_id model_id : ℕ) (debit earning : EntryType) (price rate : ℤ)
    → total_from
        (pos 0)
        (split_entries client_id model_id debit earning price (compute_split price rate))
      ≡ pos 0
split_entries-balanced c m d e price rate = grind (int_laws, compute_split-sum price rate)

-- The rate that applies to a model at a ledger, once the tier is known.
abbrev pub rate_of : List TierRow → ℕ → Db → ℤ → ℤ
rate_of table model_id db tier_rate =
    resolve_take_rate (override_of (find_profile model_id db)) tier_rate

abbrev pub minute_entries : Call → ℤ → List LedgerEntryInput
minute_entries call rate =
    split_entries call.client_user_id call.model_user_id EntryType.consumo_min EntryType.ganho_min
      call.price_per_minute_snapshot (compute_split call.price_per_minute_snapshot rate)

abbrev pub minute_rows : ℕ → Call → ℕ → ℤ → List LedgerEntry
minute_rows call_id call minute rate =
    rows_from 0 (Group.call_minute call_id minute) (minute_entries call rate)

-- The state after a charge.
abbrev pub charged_db : Db → ℕ → Call → ℕ → ℤ → Db
charged_db db call_id call minute rate = record db {
  ledger = minute_rows call_id call minute rate ++ db.ledger;
  calls = update_many (call_has_id call_id) bill_one db.calls;
}

abbrev pub ended_db : Db → ℕ → ℕ → Db
ended_db db call_id now = record db { calls = map (end_no_credits call_id now) db.calls }

pub has_group-clashes :
    (l : List LedgerEntry) (group : Group) (es : List LedgerEntryInput)
    → has_group group l ≡ false
    → clashes (rows_from 0 group es) l ≡ false
has_group-clashes l group es h = go 0 es
  where
    go : (i : ℕ) (es : List LedgerEntryInput) → clashes (rows_from i group es) l ≡ false
    go i [] = refl
    go i (e ∷ es) = ground (arith, has_group-has_ref l (row_of i group e) h, go (suc i) es)

-- With credits and a known tier the charge goes through, in the state and with the result below.
charge_active-done :
    (table : List TierRow) (call_id minute now : ℕ) (call : Call) (tier_rate : ℤ) (db : Db)
    → any (call_has_id call_id) db.calls ≡ true
    → has_group (Group.call_minute call_id minute) db.ledger ≡ false
    → ltb_ℤ (balance (Account.client call.client_user_id) db.ledger) call.price_per_minute_snapshot
      ≡ false
    → tier_rate_for table call.model_user_id db.ledger ≡ some tier_rate
    → transaction (charge_active table call_id call minute now) db ≡ (
      ok charged,
      charged_db db call_id call minute (rate_of table call.model_user_id db tier_rate),
    )
unfolding charge_active
charge_active-done table call_id minute now call tier_rate db known fresh rich tier = ground (
  arith,
  post_transaction_lem (Group.call_minute call_id minute)
      (minute_entries call (rate_of table call.model_user_id db tier_rate)) db,
  split_entries-balanced call.client_user_id call.model_user_id EntryType.consumo_min
      EntryType.ganho_min call.price_per_minute_snapshot
      (rate_of table call.model_user_id db tier_rate),
  has_group-clashes db.ledger (Group.call_minute call_id minute)
      (minute_entries call (rate_of table call.model_user_id db tier_rate)) fresh,
)

-- The outcomes of `chargeMinute`, each with what holds where it occurs.
pub data ChargeOutcome (table : List TierRow) (call_id minute now : ℕ) (db : Db)
    : Result ChargeResult × Db → Type 0 where
  is_missing :
      find_call call_id db ≡ none
      → ChargeOutcome table call_id minute now db (ok call_not_found, db)
  is_replay :
      has_group (Group.call_minute call_id minute) db.ledger ≡ true
      → ChargeOutcome table call_id minute now db (ok already_charged, db)
  is_inactive :
      (call : Call)
      → find_call call_id db ≡ some call
      → is_active call.status ≡ false
      → ChargeOutcome table call_id minute now db (ok not_active, db)
  is_broke :
      (call : Call)
      → find_call call_id db ≡ some call
      → is_active call.status ≡ true
      → ltb_ℤ
          (balance (Account.client call.client_user_id) db.ledger)
          call.price_per_minute_snapshot
        ≡ true
      → ChargeOutcome table call_id minute now db (ok ended, ended_db db call_id now)
  is_crash :
      (call : Call)
      → find_call call_id db ≡ some call
      → tier_rate_for table call.model_user_id db.ledger ≡ none
      → ChargeOutcome table call_id minute now db (err internal, db)
  is_charged :
      (call : Call) (tier_rate : ℤ)
      → find_call call_id db ≡ some call
      → has_group (Group.call_minute call_id minute) db.ledger ≡ false
      → is_active call.status ≡ true
      → ltb_ℤ
          (balance (Account.client call.client_user_id) db.ledger)
          call.price_per_minute_snapshot
        ≡ false
      → tier_rate_for table call.model_user_id db.ledger ≡ some tier_rate
      → ChargeOutcome table call_id minute now db (
        ok charged,
        charged_db db call_id call minute (rate_of table call.model_user_id db tier_rate),
      )

charge_active-outcome :
    (table : List TierRow) (call_id minute now : ℕ) (call : Call) (db : Db)
    → find_call call_id db ≡ some call
    → has_group (Group.call_minute call_id minute) db.ledger ≡ false
    → is_active call.status ≡ true
    → ChargeOutcome table call_id minute now db
        (transaction (charge_active table call_id call minute now) db)
unfolding charge_active
charge_active-outcome table call_id minute now call db found fresh on =
    elim (Bool-cases (
      ltb_ℤ (balance (Account.client call.client_user_id) db.ledger)
        call.price_per_minute_snapshot)) [
          | inl broke ↦ subst Outcome (ground arith) (is_broke call found on broke)
          | inr rich ↦ elim (Option-cases (tier_rate_for table call.model_user_id db.ledger)) [
            | inl e ↦ subst Outcome (ground arith) (is_crash call found e)
            | inr (tier_rate, e) ↦
                subst Outcome
                  (sym (
                    charge_active-done table call_id minute now call tier_rate db
                      (find_first-any (call_has_id call_id) db.calls call found) fresh rich e))
                  (is_charged call tier_rate found fresh on rich e)
          ]
        ]
  where
    Outcome : Result ChargeResult × Db → Type 0
    Outcome = ChargeOutcome table call_id minute now db

-- Every result of `chargeMinute`, with the state that it leaves: no such call, charged already,
-- not active, ended without credits, an exception without a tier (an empty table), or charged;
-- only the ending and the charge change the database.
pub charge_minute-outcome :
    (table : List TierRow) (call_id minute now : ℕ) (db : Db)
    → ChargeOutcome table call_id minute now db (charge_minute table call_id minute now db)
unfolding charge_minute
charge_minute-outcome table call_id minute now db = elim (Option-cases (find_call call_id db)) [
  | inl e ↦ subst Outcome (ground arith) (is_missing e)
  | inr (call, e) ↦ elim (Bool-cases (has_group (Group.call_minute call_id minute) db.ledger)) [
    | inl old ↦ subst Outcome (ground arith) (is_replay old)
    | inr fresh ↦ elim (Bool-cases (is_active call.status)) [
      | inr off ↦ subst Outcome (ground arith) (is_inactive call e off)
      | inl on ↦
          subst Outcome (ground arith)
            (charge_active-outcome table call_id minute now call db e fresh on)
    ]
  ]
]
  where
    Outcome : Result ChargeResult × Db → Type 0
    Outcome = ChargeOutcome table call_id minute now db
