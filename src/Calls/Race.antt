-- ===== src/Calls/Race.antt =====
-- `accept` of src/calls/call.service.ts against a `hangup` that commits between its read and its
-- write: `hangup` takes no advisory lock, and the write has no guard on the status.
use samy.Prelude.{
  ℕ, ◌≡◌, Bool, true, some, List, [], ◌∷◌, map, arith, any, refl, find_first, find_first-any,
  find_first-holds, update_many,
}
use samy.Database.Rows.{Call, CallStatus, EndReason, is_requested}
use samy.Database.{Db, ok}
use samy.Database.Queries.{call_has_id, find_call}
use samy.Calls.{
  TxResult, accept_check, accept_write, activate, end_calls, end_if, hangup, not_ended,
}

find-end_if :
    (guard : CallStatus → Bool) (reason : EndReason) (id now : ℕ) (cs : List Call) (c : Call)
    → find_first (call_has_id id) cs ≡ some c
    → find_first (call_has_id id) (map (end_if guard reason id now) cs)
      ≡ some (end_if guard reason id now c)
find-end_if guard reason id now [] c h = cc
find-end_if guard reason id now (x ∷ cs) c h = ground (arith, find-end_if guard reason id now cs c)

find-activate :
    (id now : ℕ) (cs : List Call) (c : Call)
    → find_first (call_has_id id) cs ≡ some c
    → find_first (call_has_id id) (update_many (call_has_id id) (activate now) cs)
      ≡ some (activate now c)
find-activate id now [] c h = cc
find-activate id now (x ∷ cs) c h = ground (arith, find-activate id now cs c)

passed_requested :
    (call_id model_id now : ℕ) (db : Db) (call : Call)
    → find_call call_id db ≡ some call
    → (accept_check call_id model_id now db).0 ≡ ok TxResult.active
    → is_requested call.status ≡ true
unfolding accept_check
passed_requested call_id model_id now db call e passed = ground arith

hangup_ends :
    (call_id later : ℕ) (db : Db) (call : Call)
    → find_call call_id db ≡ some call
    → is_requested call.status ≡ true
    → (hangup call_id call.client_user_id later db).1
      ≡ end_calls not_ended EndReason.hangup_client call_id later db
unfolding hangup
hangup_ends call_id later db call e r = ground arith

write_activates :
    (call_id later : ℕ) (db : Db)
    → any (call_has_id call_id) db.calls ≡ true
    → (accept_write call_id later TxResult.active db).1
      ≡ record db { calls = update_many (call_has_id call_id) (activate later) db.calls }
unfolding accept_write
write_activates call_id later db known = ground arith

-- Whenever the check of `accept` passes and the client hangs up before the write, the call is
-- ENDED in between, and the write makes it ACTIVE again, its end reason and end time still set.
pub accept_write-reopens :
    (call_id model_id now later : ℕ) (db : Db) (call : Call)
    → find_call call_id db ≡ some call
    → (accept_check call_id model_id now db).0 ≡ ok TxResult.active
    → let between = (hangup call_id call.client_user_id later db).1 in
      let after = (accept_write call_id later TxResult.active between).1 in
      (c : Call) × (d : Call) × (find_call call_id between ≡ some c)
      × (c.status ≡ CallStatus.ended)
      × (find_call call_id after ≡ some d)
      × (d.status ≡ CallStatus.active)
      × (d.end_reason ≡ some EndReason.hangup_client)
      × (d.ended_at ≡ some later)
accept_write-reopens call_id model_id now later db call e passed =
    let r = passed_requested call_id model_id now db call e passed in
    let here = find_first-holds (call_has_id call_id) db.calls call e in
    let mid = find-end_if not_ended EndReason.hangup_client call_id later db.calls call e in
    rw (hangup_ends call_id later db call e r) (
      rw
        (write_activates call_id later
          (end_calls not_ended EndReason.hangup_client call_id later db)
          (find_first-any (call_has_id call_id)
            (map (end_if not_ended EndReason.hangup_client call_id later) db.calls) gone mid))
        (
          gone,
          activate later gone,
          mid,
          ground arith,
          find-activate call_id later
              (map (end_if not_ended EndReason.hangup_client call_id later) db.calls) gone mid,
          refl,
          ground arith,
          ground arith,
        ))
  where
    gone : Call
    gone = end_if not_ended EndReason.hangup_client call_id later call
