-- ===== src/System/Metered/Steps.antt =====
-- A charge of src/billing/billing.service.ts counts the minute that it takes the price of.
use mathlib.Core.Path.{subst}
use samy.Prelude.{
  ℕ, ◌≡◌, refl, sym, ◌∙◌, ◌==◌, ==_refl, ==_iff, true, false, List, [], ◌∷◌, ◌++◌, arith, All, any,
  find_first, update_many, some, Bool-cases, inl, inr, if◌then◌else◌,
}
use samy.Prelude.Int.{ℤ, pos, neg, ◌+ℤ◌, int_laws}
use samy.Database.Accounts.{Account, Group}
use samy.Database.Rows.{Call, EntryType, LedgerEntry}
use samy.Database.{Db}
use samy.Database.Queries.{call_has_id}
use samy.Ledger.{rows_from}
use samy.Billing.TakeRate.{compute_split}
use samy.Billing.{bill_one}
use samy.Billing.Charge.{charged_db, minute_entries}
use samy.Calls.Bills.{bill_of, bills}
use samy.Calls.Lifecycle.{UniqueIds}
use samy.Taximeter.CatchUp.{times}
use samy.System.Metered.{IsMetered, IsPaid, debits, debits-minute, has_bill}

abbrev pub Metered : Db → Type 0
Metered db = IsMetered db.ledger (bills db.calls)

-- The rows of a minute take the price from the client of its call, and nothing for another.
debits-after :
    (k id minute : ℕ) (c : Call) (rate : ℤ) (l : List LedgerEntry)
    → debits k (rows_from 0 (Group.call_minute id minute) (minute_entries c rate) ++ l)
      ≡ (if id == k then neg c.price_per_minute_snapshot +ℤ debits k l else debits k l)
debits-after k id minute c rate l =
    let split = compute_split c.price_per_minute_snapshot rate in
    debits-minute k id minute
      (record {
        account = Account.client c.client_user_id;
        entry_type = EntryType.consumo_min;
        amount = neg c.price_per_minute_snapshot;
      })
      (record {
        account = Account.model c.model_user_id;
        entry_type = EntryType.ganho_min;
        amount = split.model_share;
      }
        ∷ record {
          account = Account.platform;
          entry_type = EntryType.comissao;
          amount = split.commission;
        }
        ∷ [])
      l

-- The bills of rows whose ids are all another's.
other-IsPaid :
    (id : ℕ) (l l' : List LedgerEntry) (cs : List Call)
    → any (call_has_id id) cs ≡ false
    → ((k : ℕ) → (id == k) ≡ false → debits k l' ≡ debits k l)
    → All (IsPaid l) (bills cs)
    → All (IsPaid l') (bills (update_many (call_has_id id) bill_one cs))
other-IsPaid id l l' [] absent e h = tt
other-IsPaid id l l' (c ∷ cs) absent e h =
    let (other, rest) = any_split id c cs absent in
    rw (other, e c.id (==_swap c.id id other)) (h.0, other-IsPaid id l l' cs rest e h.1)
  where
    any_split :
        (id : ℕ) (c : Call) (cs : List Call)
        → any (call_has_id id) (c ∷ cs) ≡ false
        → ((c.id == id) ≡ false) × (any (call_has_id id) cs ≡ false)
    any_split id c cs h = ground arith

    ==_swap : (a b : ℕ) → (a == b) ≡ false → (b == a) ≡ false
    ==_swap a b h = ground arith

paid_one : (d d' p t : ℤ) → d' ≡ neg p +ℤ d → d +ℤ t ≡ pos 0 → d' +ℤ (p +ℤ t) ≡ pos 0
paid_one d d' p t e h = rw e (moved d p t ∙ h)
  where
    moved : (d p t : ℤ) → neg p +ℤ d +ℤ (p +ℤ t) ≡ d +ℤ t
    moved d p t = omega int_laws

-- The bills after one minute of the call that is found.
updated-IsPaid :
    (id : ℕ) (l l' : List LedgerEntry) (cs : List Call) (c : Call)
    → UniqueIds cs
    → find_first (call_has_id id) cs ≡ some c
    → debits id l' ≡ neg c.price_per_minute_snapshot +ℤ debits id l
    → ((k : ℕ) → (id == k) ≡ false → debits k l' ≡ debits k l)
    → All (IsPaid l) (bills cs)
    → All (IsPaid l') (bills (update_many (call_has_id id) bill_one cs))
updated-IsPaid id l l' [] c u found here there h = tt
updated-IsPaid id l l' (x ∷ cs) c u found here there h = elim (Bool-cases (x.id == id)) [
  | inl hit ↦ rw hit (
    hit_paid hit,
    other-IsPaid id l l' cs
        (subst (λ i. any (call_has_id i) cs ≡ false) ((==_iff x.id id).0 hit) u.0) there h.1,
  )
  | inr miss ↦
      rw (miss, there x.id (swapped miss))
        (h.0, updated-IsPaid id l l' cs c u.1 (ground arith) here there h.1)
]
  where
    swapped : (x.id == id) ≡ false → (id == x.id) ≡ false
    swapped h = ground arith

    same : (x.id == id) ≡ true → c ≡ x
    same hit = ground arith

    hit_paid : (x.id == id) ≡ true → IsPaid l' (bill_of (bill_one x))
    hit_paid hit =
        paid_one (debits x.id l) (debits x.id l') x.price_per_minute_snapshot
          (times x.billed_minutes x.price_per_minute_snapshot)
          (subst (λ i. debits i l' ≡ neg x.price_per_minute_snapshot +ℤ debits i l)
            (sym ((==_iff x.id id).0 hit))
            (subst (λ (y : Call). debits id l' ≡ neg y.price_per_minute_snapshot +ℤ debits id l)
              (same hit) here))
          h.0

same_ids :
    (k id : ℕ) (cs : List Call)
    → any (has_bill k) (bills (update_many (call_has_id id) bill_one cs))
      ≡ any (has_bill k) (bills cs)
same_ids k id [] = refl
same_ids k id (c ∷ cs) = ground (arith, same_ids k id cs)

present :
    (k id : ℕ) (cs : List Call) (c : Call)
    → find_first (call_has_id id) cs ≡ some c
    → any (has_bill k) (bills cs) ≡ false
    → (id == k) ≡ false
present k id [] c found h = cc
present k id (x ∷ cs) c found h = ground (arith, present k id cs c)

pub charged_db-Metered :
    (call_id minute : ℕ) (c : Call) (rate : ℤ) (db : Db)
    → UniqueIds db.calls
    → find_first (call_has_id call_id) db.calls ≡ some c
    → Metered db
    → Metered (charged_db db call_id c minute rate)
charged_db-Metered call_id minute c rate db u found k = record {
  paid = updated-IsPaid call_id db.ledger _ db.calls c u found here there k.paid;
  others = λ id absent.
      let gone = sym (same_ids id call_id db.calls) ∙ absent in
      there id (present id call_id db.calls c found gone) ∙ k.others id gone;
}
  where
    here :
        debits call_id (charged_db db call_id c minute rate).ledger
        ≡ neg c.price_per_minute_snapshot +ℤ debits call_id db.ledger
    here = debits-after call_id call_id minute c rate db.ledger ∙ rw (==_refl call_id) refl

    there :
        (k : ℕ)
        → (call_id == k) ≡ false
        → debits k (charged_db db call_id c minute rate).ledger ≡ debits k db.ledger
    there k other = debits-after k call_id minute c rate db.ledger ∙ rw other refl
