-- ===== src/Taximeter/CatchUp.antt =====
-- What the loop of src/scheduler/taximeter.service.ts charges: with enough credit every minute
-- that is due, with less credit the minutes that it pays for, and then the call ends.
use mathlib.Core.Path.{subst}
use samy.Prelude.{
  ℕ, zero, suc, ◌+◌, ◌-◌, ◌≡◌, ◌<◌, ◌≤◌, refl, ◌∙◌, true, false, some, List, [], ◌∷◌, arith,
  find_first, map, ==_refl,
}
use samy.Prelude.Int.{ℤ, pos, ◌+ℤ◌, ◌-ℤ◌, ◌≤ℤ◌, ◌<ℤ◌, int_laws, ltb_ℤ}
use samy.Database.Accounts.{Account, Group}
use samy.Database.Rows.{Call, CallStatus, EndReason, LedgerEntry, is_active}
use samy.Database.{Db, Result, ok}
use samy.Database.Queries.{call_has_id, find_call}
use samy.Ledger.{balance}
use samy.Ranking.{TierRow}
use samy.Ranking.Tiers.{tier_rate_for-defined}
use samy.Billing.{ChargeResult, charged, ended, bill_one, charge_minute, has_group, end_no_credits}
use samy.Billing.Charge.{
  ChargeOutcome, is_missing, is_replay, is_inactive, is_broke, is_crash, is_charged,
  charge_minute-outcome, charged_db, ended_db, rate_of,
}
use samy.Billing.Effects.{charged_db-Charged}
use samy.Taximeter.{charge_minutes, charge_call, due_minute}

abbrev pub times : ℕ → ℤ → ℤ
times zero p = pos 0
times (suc k) p = p +ℤ times k p

pub times_nonneg : (k : ℕ) (p : ℤ) → pos 0 ≤ℤ p → pos 0 ≤ℤ times k p
times_nonneg zero p h = omega arith
times_nonneg (suc k) p h = omega (int_laws, times_nonneg k p h)

covers_rest : (a b p q : ℤ) → a ≡ b -ℤ p → p +ℤ q ≤ℤ b → q ≤ℤ a
covers_rest a b p q h le = rw h (omega int_laws)

below_rest : (a b p q : ℤ) → a ≡ b -ℤ p → b <ℤ p +ℤ q → a <ℤ q
below_rest a b p q h lt = rw h (omega int_laws)

minus_both : (a b p q : ℤ) → a ≡ b -ℤ p → a -ℤ q ≡ b -ℤ (p +ℤ q)
minus_both a b p q h = rw h (omega int_laws)

-- No minute from `n` on has been charged.
abbrev pub IsUncharged : ℕ → ℕ → List LedgerEntry → Type 0
IsUncharged call_id n l = (m : ℕ) → n ≤ m → has_group (Group.call_minute call_id m) l ≡ false

abbrev client_balance : Call → Db → ℤ
client_balance call db = balance (Account.client call.client_user_id) db.ledger

-- The state in which the loop meets minute `n` of a call.
record Ready (call_id n : ℕ) (call : Call) (db : Db) : Type 0 where
  is_found : find_call call_id db ≡ some call
  on : is_active call.status ≡ true
  fresh : IsUncharged call_id n db.ledger

-- One minute charged, the next one ready.
record Advance (call_id n : ℕ) (call : Call) (before : Db) (r : Result ChargeResult × Db)
    : Type 0 where
  answer : r.0 ≡ ok charged
  ready : Ready call_id (suc n) (bill_one call) r.1
  paid : client_balance call r.1 ≡ client_balance call before -ℤ call.price_per_minute_snapshot

charged_db-Ready :
    (call_id n : ℕ) (call : Call) (rate : ℤ) (db : Db)
    → Ready call_id n call db
    → ltb_ℤ (client_balance call db) call.price_per_minute_snapshot ≡ false
    → Advance call_id n call db (ok charged, charged_db db call_id call n rate)
charged_db-Ready call_id n call rate db ready rich =
    let effect = charged_db-Charged call_id n call rate db ready.is_found ready.on rich in
    record {
      answer = refl;
      ready = record {
        is_found = effect.minute_counted;
        on = ready.on;
        fresh = λ m h. ground (arith, ready.fresh m (omega arith));
      };
      paid = effect.client_pays;
    }

module _ (first : TierRow) (rest : List TierRow) (call_id now : ℕ) where
  charge_minute-Advance :
      (n : ℕ) (call : Call) (db : Db)
      → Ready call_id n call db
      → call.price_per_minute_snapshot ≤ℤ client_balance call db
      → Advance call_id n call db (charge_minute (first ∷ rest) call_id n now db)
  charge_minute-Advance n call db ready rich =
      go (charge_minute-outcome (first ∷ rest) call_id n now db)
    where
      go :
          {r : Result ChargeResult × Db}
          → ChargeOutcome (first ∷ rest) call_id n now db r
          → Advance call_id n call db r
      go (is_missing e) = absurd (ground (arith, ready.is_found))
      go (is_replay old) = absurd (ground (arith, ready.fresh n (omega arith)))
      go (is_inactive c e off) = absurd (ground (arith, ready.is_found, ready.on))
      go (is_broke c e on broke) = absurd (ground (arith, ready.is_found))
      go (is_crash c e t) =
          let (rate, t') = tier_rate_for-defined first rest c.model_user_id db.ledger in
          absurd (ground arith)
      go (is_charged c rate e fresh on r t) =
          subst
            (λ x. Advance call_id n x db (
              ok charged,
              charged_db db call_id c n (rate_of (first ∷ rest) c.model_user_id db rate),
            ))
            (ground (arith, ready.is_found))
            (charged_db-Ready call_id n c (rate_of (first ∷ rest) c.model_user_id db rate) db
              (record { is_found = e; on = on; fresh = ready.fresh }) r)

  next_minute :
      (n left : ℕ) (db : Db)
      → (charge_minute (first ∷ rest) call_id n now db).0 ≡ ok charged
      → charge_minutes (first ∷ rest) call_id n (suc left) now db
        ≡ charge_minutes
            (first ∷ rest)
            call_id
            (suc n)
            left
            now
            (charge_minute (first ∷ rest) call_id n now db).1
  unfolding charge_minutes
  next_minute n left db h = ground (arith, h)

  -- Where the balance covers the minutes that are left, the loop charges all of them.
  charge_minutes-paid :
      (n left : ℕ) (call : Call) (db : Db)
      → Ready call_id n call db
      → pos 0 ≤ℤ call.price_per_minute_snapshot
      → times left call.price_per_minute_snapshot ≤ℤ client_balance call db
      → (find_call call_id (charge_minutes (first ∷ rest) call_id n left now db).1
          ≡ some (record call { billed_minutes = call.billed_minutes + left }))
        × (client_balance call (charge_minutes (first ∷ rest) call_id n left now db).1
            ≡ client_balance call db -ℤ times left call.price_per_minute_snapshot)
  unfolding charge_minutes
  charge_minutes-paid n zero call db ready price rich =
      (ready.is_found ∙ ground arith, omega int_laws)
  charge_minutes-paid n (suc left) call db ready price rich =
      let advance =
        charge_minute-Advance n call db ready
          (omega (int_laws, times_nonneg left call.price_per_minute_snapshot price)) in
      let (found, left_over) =
        charge_minutes-paid (suc n) left (bill_one call)
          (charge_minute (first ∷ rest) call_id n now db).1 advance.ready price
          (covers_rest _ _ call.price_per_minute_snapshot _ advance.paid rich) in
      rw (next_minute n left db advance.answer) (
        found ∙ ground arith,
        left_over ∙ minus_both _ _ call.price_per_minute_snapshot _ advance.paid,
      )

  charge_minute-Broke :
      (n : ℕ) (call : Call) (db : Db)
      → Ready call_id n call db
      → client_balance call db <ℤ call.price_per_minute_snapshot
      → charge_minute (first ∷ rest) call_id n now db ≡ (ok ended, ended_db db call_id now)
  charge_minute-Broke n call db ready poor =
      go (charge_minute-outcome (first ∷ rest) call_id n now db)
    where
      go :
          {r : Result ChargeResult × Db}
          → ChargeOutcome (first ∷ rest) call_id n now db r
          → r ≡ (ok ended, ended_db db call_id now)
      go (is_missing e) = absurd (ground (arith, ready.is_found))
      go (is_replay old) = absurd (ground (arith, ready.fresh n (omega arith)))
      go (is_inactive c e off) = absurd (ground (arith, ready.is_found, ready.on))
      go (is_broke c e on broke) = refl
      go (is_crash c e t) =
          let (rate, t') = tier_rate_for-defined first rest c.model_user_id db.ledger in
          absurd (ground arith)
      go (is_charged c rate e fresh on rich t) = absurd (ground (arith, ready.is_found))

  find-end_no_credits :
      (cs : List Call) (c : Call)
      → find_first (call_has_id call_id) cs ≡ some c
      → find_first (call_has_id call_id) (map (end_no_credits call_id now) cs)
        ≡ some (end_no_credits call_id now c)
  find-end_no_credits [] c h = cc
  find-end_no_credits (x ∷ cs) c h = ground (arith, find-end_no_credits cs c)

  last_minute :
      (n left : ℕ) (db after : Db)
      → charge_minute (first ∷ rest) call_id n now db ≡ (ok ended, after)
      → charge_minutes (first ∷ rest) call_id n (suc left) now db ≡ (ok tt, after)
  unfolding charge_minutes
  last_minute n left db after h = ground (arith, h)

  -- Where the balance covers `k` of more than `k` minutes, the loop charges these and ends the
  -- call.
  charge_minutes-out :
      (n k left : ℕ) (call : Call) (db : Db)
      → Ready call_id n call db
      → pos 0 ≤ℤ call.price_per_minute_snapshot
      → k < left
      → times k call.price_per_minute_snapshot ≤ℤ client_balance call db
      → client_balance call db <ℤ times (suc k) call.price_per_minute_snapshot
      → (find_call call_id (charge_minutes (first ∷ rest) call_id n left now db).1
          ≡ some (
              end_no_credits call_id now
                (record call { billed_minutes = call.billed_minutes + k })))
        × (client_balance call (charge_minutes (first ∷ rest) call_id n left now db).1
            ≡ client_balance call db -ℤ times k call.price_per_minute_snapshot)
  charge_minutes-out n k zero call db ready price due rich poor = absurd (omega arith)
  charge_minutes-out n zero (suc left) call db ready price due rich poor =
      rw
        (last_minute n left db (ended_db db call_id now)
          (charge_minute-Broke n call db ready (omega int_laws)))
        (find-end_no_credits db.calls call ready.is_found ∙ ground arith, omega int_laws)
  charge_minutes-out n (suc k) (suc left) call db ready price due rich poor =
      let advance =
        charge_minute-Advance n call db ready
          (omega (int_laws, times_nonneg k call.price_per_minute_snapshot price)) in
      let (found, left_over) =
        charge_minutes-out (suc n) k left (bill_one call)
          (charge_minute (first ∷ rest) call_id n now db).1 advance.ready price (omega arith)
          (covers_rest _ _ call.price_per_minute_snapshot _ advance.paid rich)
          (below_rest _ _ call.price_per_minute_snapshot _ advance.paid poor) in
      rw (next_minute n left db advance.answer) (
        found ∙ ground arith,
        left_over ∙ minus_both _ _ call.price_per_minute_snapshot _ advance.paid,
      )

due_call :
    (table : List TierRow) (now started_at : ℕ) (call : Call) (db : Db)
    → call.started_at ≡ some started_at
    → charge_call table now call db
      ≡ charge_minutes table call.id
          (suc call.billed_minutes)
          (due_minute now started_at - call.billed_minutes)
          now
          db
unfolding charge_call
due_call table now started_at call db h = ground (arith, h)

-- Catching up. The call read by the tick is the one found under its id, ACTIVE and started; no
-- minute after its billed ones is in the ledger, its price is not negative, and a tier table with
-- a row is loaded. Where the client's balance covers the price of all the minutes that are due and
-- not billed, the round for the call bills exactly these, leaves the rest of the call as it was,
-- and takes exactly their price from the client.
pub charge_call-catches_up :
    (first : TierRow) (rest : List TierRow) (now started_at : ℕ) (call : Call) (db : Db)
    → find_call call.id db ≡ some call
    → is_active call.status ≡ true
    → call.started_at ≡ some started_at
    → IsUncharged call.id (suc call.billed_minutes) db.ledger
    → pos 0 ≤ℤ call.price_per_minute_snapshot
    → times (due_minute now started_at - call.billed_minutes) call.price_per_minute_snapshot
      ≤ℤ balance (Account.client call.client_user_id) db.ledger
    → (find_call call.id (charge_call (first ∷ rest) now call db).1
        ≡ some (record call {
          billed_minutes = call.billed_minutes + (due_minute now started_at - call.billed_minutes);
        }))
      × (balance
            (Account.client call.client_user_id)
            (charge_call (first ∷ rest) now call db).1.ledger
          ≡ balance (Account.client call.client_user_id) db.ledger
            -ℤ times
                (due_minute now started_at - call.billed_minutes)
                call.price_per_minute_snapshot)
charge_call-catches_up first rest now started_at call db found on started fresh price rich =
    rw (due_call (first ∷ rest) now started_at call db started) (
      charge_minutes-paid first rest call.id now (suc call.billed_minutes)
        (due_minute now started_at - call.billed_minutes) call db
        (record { is_found = found; on = on; fresh = fresh }) price rich)

-- Running out. The call read by the tick is the one found under its id, ACTIVE and started; no
-- minute after its billed ones is in the ledger, its price is not negative, and a tier table with
-- a row is loaded. Where the client's balance covers `k` minutes and not one more, and more than
-- `k` are due and not billed, the round for the call bills exactly `k` minutes, takes exactly
-- their price, and leaves the call ENDED with reason NO_CREDITS at `now`.
pub charge_call-runs_out :
    (first : TierRow) (rest : List TierRow) (now started_at k : ℕ) (call : Call) (db : Db)
    → find_call call.id db ≡ some call
    → is_active call.status ≡ true
    → call.started_at ≡ some started_at
    → IsUncharged call.id (suc call.billed_minutes) db.ledger
    → pos 0 ≤ℤ call.price_per_minute_snapshot
    → call.billed_minutes + k < due_minute now started_at
    → times k call.price_per_minute_snapshot
      ≤ℤ balance (Account.client call.client_user_id) db.ledger
    → balance (Account.client call.client_user_id) db.ledger
      <ℤ times (suc k) call.price_per_minute_snapshot
    → (find_call call.id (charge_call (first ∷ rest) now call db).1
        ≡ some (record call {
          billed_minutes = call.billed_minutes + k;
          status = CallStatus.ended;
          end_reason = some EndReason.no_credits;
          ended_at = some now;
        }))
      × (balance
            (Account.client call.client_user_id)
            (charge_call (first ∷ rest) now call db).1.ledger
          ≡ balance (Account.client call.client_user_id) db.ledger
            -ℤ times k call.price_per_minute_snapshot)
charge_call-runs_out first rest now started_at k call db found on started fresh price due rich
      poor =
    let (final, paid) =
      charge_minutes-out first rest call.id now (suc call.billed_minutes) k
        (due_minute now started_at - call.billed_minutes) call db
        (record { is_found = found; on = on; fresh = fresh }) price (omega arith) rich poor in
    rw (due_call (first ∷ rest) now started_at call db started)
      (final ∙ ground (arith, ==_refl call.id, on), paid)
