-- ===== src/Calls/Bills.antt =====
-- The bills of the calls under src/calls/call.service.ts: its methods bill nothing.
use samy.Prelude.{ℕ, ◌≡◌, refl, Bool, List, [], ◌∷◌, map, arith, update_many}
use samy.Prelude.Int.{ℤ}
use samy.Database.Rows.{Call, CallStatus, EndReason, Role, is_requested}
use samy.Database.{Db}
use samy.Database.Queries.{call_has_id}
use samy.Calls.{
  TxResult, accept_settle, accept_write, activate, end_if, end_call, get_for_participant, hangup,
  not_ended, panic, reject,
}

-- The id, the price and the billed minutes of a call.
pub record Bill : Type 0 where
  pub id : ℕ
  pub price : ℤ
  pub minutes : ℕ

abbrev pub bill_of : Call → Bill
bill_of c = record { id = c.id; price = c.price_per_minute_snapshot; minutes = c.billed_minutes }

abbrev pub bills : List Call → List Bill
bills cs = map bill_of cs

pub bills-end_if :
    (guard : CallStatus → Bool) (reason : EndReason) (id now : ℕ) (cs : List Call)
    → bills (map (end_if guard reason id now) cs) ≡ bills cs
bills-end_if guard reason id now [] = refl
bills-end_if guard reason id now (c ∷ cs) = ground (arith, bills-end_if guard reason id now cs)

bills-activate :
    (id now : ℕ) (cs : List Call)
    → bills (update_many (call_has_id id) (activate now) cs) ≡ bills cs
bills-activate id now [] = refl
bills-activate id now (c ∷ cs) = ground (arith, bills-activate id now cs)

pub accept_write-bills :
    (call_id now : ℕ) (outcome : TxResult) (db : Db)
    → bills (accept_write call_id now outcome db).1.calls ≡ bills db.calls
unfolding accept_write
accept_write-bills call_id now outcome db = ground (arith, bills-activate call_id now db.calls)

pub accept_settle-bills :
    (call_id now : ℕ) (outcome : TxResult) (db : Db)
    → bills (accept_settle call_id now outcome db).1.calls ≡ bills db.calls
unfolding accept_settle
accept_settle-bills call_id now outcome db = ground (
  arith,
  bills-end_if is_requested EndReason.timeout call_id now db.calls,
  bills-end_if is_requested EndReason.no_credits call_id now db.calls,
)

pub reject-bills :
    (call_id model_id now : ℕ) (db : Db)
    → bills (reject call_id model_id now db).1.calls ≡ bills db.calls
unfolding reject
reject-bills call_id model_id now db =
    ground (arith, bills-end_if is_requested EndReason.rejected call_id now db.calls)

pub hangup-bills :
    (call_id user_id now : ℕ) (db : Db)
    → bills (hangup call_id user_id now db).1.calls ≡ bills db.calls
unfolding hangup
hangup-bills call_id user_id now db = ground (
  arith,
  bills-end_if not_ended EndReason.hangup_client call_id now db.calls,
  bills-end_if not_ended EndReason.hangup_model call_id now db.calls,
)

pub panic-bills :
    (call_id model_id now : ℕ) (db : Db)
    → bills (panic call_id model_id now db).1.calls ≡ bills db.calls
unfolding panic
panic-bills call_id model_id now db =
    ground (arith, bills-end_if not_ended EndReason.panic call_id now db.calls)

pub get_for_participant-bills :
    (call_id user_id : ℕ) (role : Role) (now : ℕ) (db : Db)
    → bills (get_for_participant call_id user_id role now db).1.calls ≡ bills db.calls
unfolding get_for_participant
get_for_participant-bills call_id user_id role now db =
    ground (arith, bills-end_if is_requested EndReason.timeout call_id now db.calls)

pub end_call-bills :
    (call_id : ℕ) (reason : EndReason) (now : ℕ) (db : Db)
    → bills (end_call call_id reason now db).1.calls ≡ bills db.calls
unfolding end_call
end_call-bills call_id reason now db = bills-end_if not_ended reason call_id now db.calls
