-- ===== src/Calls.antt =====
-- src/calls/call.service.ts: the life of a call, from the request to the end. A method that runs
-- in a transaction under its advisory locks is one step; one that reads and then writes in
-- separate statements is split into its statements where another may come between (`accept`).
-- The media server is not modelled: a token is the room and the identity that it is issued for.
pub mod Lifecycle
pub mod Open
pub mod Race
pub mod Frame
pub mod Ids
pub mod Bills
use samy.Prelude.{
  ℕ, Bool, true, false, not, ◌&&◌, ◌||◌, ◌==◌, ◌-◌, ◌+◌, Option, none, some, List, [], ◌∷◌, String,
  ltb, if◌then◌else◌, any, find_first, find_many, update_many, count, map, leb,
}
use samy.Prelude.Int.{ℤ, ltb_ℤ}
use samy.Database.Accounts.{Account}
use samy.Database.Rows.{
  Call, CallStatus, EndReason, ModelProfile, User, Role, PresenceKey, is_active, is_active_user,
  is_ended, is_model, is_requested,
}
use samy.Database.{
  Db, Action, Error, Result, ok, err, conflict, record_not_found, payment_required,
  unique_violation, pure, raise, raise_if, query, or_raise, modify, transaction, ◌>>=◌, ◌>>◌,
}
use samy.Database.Queries.{call_has_id, find_call, find_profile, find_user, update_call}
use samy.Ledger.{get_balance}

-- `RING_TIMEOUT_SECONDS * 1000`.
abbrev pub ring_timeout : ℕ
ring_timeout = 30000

-- `Date.now() - requestedAt > RING_TIMEOUT_SECONDS * 1000`.
abbrev pub is_expired : ℕ → ℕ → Bool
is_expired now requested_at = ltb (requested_at + ring_timeout) now

-- `RedisService.getStatus` (src/redis/redis.service.ts): the key is there and has not expired.
abbrev pub is_online : ℕ → ℕ → List PresenceKey → Bool
is_online now model_id = any (λ k. k.model_id == model_id && ltb now k.expires_at)

-- `{ clientUserId, status: { not: 'ENDED' } }`, and the same for a model.
abbrev pub is_open : Call → Bool
is_open c = not (is_ended c.status)

abbrev pub open_for_client : ℕ → Call → Bool
open_for_client client_id c = c.client_user_id == client_id && is_open c

abbrev pub open_for_model : ℕ → Call → Bool
open_for_model model_id c = c.model_user_id == model_id && is_open c

abbrev pub new_call : ℕ → ℕ → ℕ → ℤ → ℕ → Call
new_call id client_id model_id price now = record {
  id = id;
  client_user_id = client_id;
  model_user_id = model_id;
  status = CallStatus.requested;
  end_reason = none;
  price_per_minute_snapshot = price;
  room_name = none;
  requested_at = now;
  started_at = none;
  ended_at = none;
  billed_minutes = 0;
}

-- The test `!model || model.role !== 'MODEL' || model.status !== 'ACTIVE' || !profile`, as the
-- profile that is left where it fails.
abbrev pub callable_profile : Option User → Option ModelProfile → Option ModelProfile
callable_profile none profile = none
callable_profile (some u) profile =
    if is_model u.role && is_active_user u.status then profile else none

unfoldable pub initiate : ℕ → ℕ → ℕ → ℕ → Action Call
unfolding get_balance
initiate id client_id model_id now = transaction (do
  raise_if (← query λ db. any (open_for_client client_id) db.calls)
      (conflict "client already in a call")
  profile ←
      or_raise (← query λ db. callable_profile (find_user model_id db) (find_profile model_id db))
        (Error.not_found "model not available")
  raise_if (← query λ db. any (open_for_model model_id) db.calls) (conflict "model busy")
  raise_if (← query λ db. not (is_online now model_id db.presence)) (conflict "model offline")
  balance ← get_balance (Account.client client_id)
  raise_if (ltb_ℤ balance profile.price_per_minute) (payment_required "insufficient balance")
  raise_if (← query λ db. any (call_has_id id) db.calls) unique_violation
  modify λ db. record db {
    calls = new_call id client_id model_id profile.price_per_minute now ∷ db.calls;
  }
  pure (new_call id client_id model_id profile.price_per_minute now))

-- The outcomes of the transaction of `accept` (`TxResult`).
pub data TxResult : Type 0 where
  active no_credits timeout not_found forbidden not_pending client_busy : TxResult

-- `data: { status: 'ENDED', endReason, endedAt }` under a guard on the present status.
abbrev pub end_if : (CallStatus → Bool) → EndReason → ℕ → ℕ → Call → Call
end_if guard reason call_id now c =
    if call_has_id call_id c && guard c.status
    then record c { status = CallStatus.ended; end_reason = some reason; ended_at = some now }
    else c

abbrev pub not_ended : CallStatus → Bool
not_ended s = not (is_ended s)

abbrev pub end_calls : (CallStatus → Bool) → EndReason → ℕ → ℕ → Db → Db
end_calls guard reason call_id now db = record db {
  calls = map (end_if guard reason call_id now) db.calls;
}

-- The reads of the transaction, which decide its outcome.
abbrev pub other_active : ℕ → ℕ → Call → Bool
other_active client_id call_id c =
    c.client_user_id == client_id && is_active c.status && not (c.id == call_id)

unfoldable pub accept_check : ℕ → ℕ → ℕ → Action TxResult
unfolding get_balance
accept_check call_id model_id now = do
  found ← query (find_call call_id)
  elim found [
    | none ↦ pure TxResult.not_found
    | some call ↦ (do
      other ← query λ db. any (other_active call.client_user_id call_id) db.calls
      balance ← get_balance (Account.client call.client_user_id)
      pure (
          if not (call.model_user_id == model_id)
          then TxResult.forbidden
          else (if is_requested call.status && is_expired now call.requested_at
              then TxResult.timeout
              else (if not (is_requested call.status)
                  then TxResult.not_pending
                  else (if other
                      then TxResult.client_busy
                      else (if ltb_ℤ balance call.price_per_minute_snapshot
                          then TxResult.no_credits
                          else TxResult.active))))))
  ]

-- `call.update({ where: { id }, data: { status: 'ACTIVE', startedAt, roomName } })`: no guard.
abbrev pub activate : ℕ → Call → Call
activate now c = record c {
  status = CallStatus.active;
  started_at = some now;
  room_name = some c.id;
}

unfoldable pub accept_write : ℕ → ℕ → TxResult → Action TxResult
accept_write call_id now TxResult.active =
    update_call call_id (activate now) >> pure TxResult.active
accept_write call_id now r = pure r

-- What `accept` does with the outcome, outside the transaction.
unfoldable pub accept_settle : ℕ → ℕ → TxResult → Action (Unit {0})
accept_settle call_id now TxResult.active = pure tt
accept_settle call_id now TxResult.not_found = raise (Error.not_found "call not found")
accept_settle call_id now TxResult.forbidden = raise (Error.forbidden "not your call")
accept_settle call_id now TxResult.timeout = do
  modify (end_calls is_requested EndReason.timeout call_id now)
  raise (conflict "call expired")
accept_settle call_id now TxResult.not_pending = raise (conflict "call not pending")
accept_settle call_id now TxResult.client_busy = raise (conflict "client already in a call")
accept_settle call_id now TxResult.no_credits = do
  modify (end_calls is_requested EndReason.no_credits call_id now)
  raise (payment_required "insufficient balance")

-- `accept` with nothing between its statements.
pub accept : ℕ → ℕ → ℕ → Action (Unit {0})
unfolding accept_check accept_write accept_settle
accept call_id model_id now = do
  outcome ← transaction (accept_check call_id model_id now >>= accept_write call_id now)
  accept_settle call_id now outcome

-- `findUniqueOrThrow`.
abbrev pub find_or_throw : ℕ → Action Call
find_or_throw call_id = do or_raise (← query (find_call call_id)) record_not_found

pub reject : ℕ → ℕ → ℕ → Action Call
reject call_id model_id now = do
  call ← or_raise (← query (find_call call_id)) (Error.not_found "call not found")
  raise_if (not (call.model_user_id == model_id)) (Error.forbidden "not your call")
  n ← query λ db. count (λ c. call_has_id call_id c && is_requested c.status) db.calls
  modify (end_calls is_requested EndReason.rejected call_id now)
  raise_if (n == 0) (conflict "call not pending")
  find_or_throw call_id

pub hangup : ℕ → ℕ → ℕ → Action Call
hangup call_id user_id now = do
  call ← or_raise (← query (find_call call_id)) (Error.not_found "call not found")
  raise_if (not (call.client_user_id == user_id) && not (call.model_user_id == user_id))
      (Error.forbidden "not a participant")
  if is_ended call.status then pure call else (do
    modify (
        end_calls not_ended
          (if call.client_user_id == user_id
            then EndReason.hangup_client
            else EndReason.hangup_model)
          call_id now)
    find_or_throw call_id)

pub panic : ℕ → ℕ → ℕ → Action Call
panic call_id model_id now = do
  call ← or_raise (← query (find_call call_id)) (Error.not_found "call not found")
  raise_if (not (call.model_user_id == model_id)) (Error.forbidden "not a participant")
  modify (end_calls not_ended EndReason.panic call_id now)
  find_or_throw call_id

unfoldable pub end_call : ℕ → EndReason → ℕ → Action (Unit {0})
end_call call_id reason now = modify (end_calls not_ended reason call_id now)

-- `incomingFor`: the newest call that still rings. Rows stand newest first.
pub incoming_for : ℕ → ℕ → Action (Option Call)
incoming_for model_id now = query λ db.
    find_first
      (λ c.
        c.model_user_id == model_id
        && is_requested c.status
        && ltb now (c.requested_at + ring_timeout))
      db.calls

unfoldable pub active_model_ids : List ℕ → Action (List ℕ)
active_model_ids model_ids = query λ db.
    map (λ c. c.model_user_id)
      (find_many (λ c. any (λ i. i == c.model_user_id) model_ids && is_active c.status) db.calls)

-- The identity that a media token is issued for.
abbrev pub identity_for : Role → ℕ → Account
identity_for Role.model user_id = Account.model user_id
identity_for _ user_id = Account.client user_id

abbrev pub media_for : Call → Role → ℕ → Option (ℕ × Account)
media_for c role user_id =
    if is_active c.status
    then elim c.room_name [ none ↦ none | some room ↦ some (room, identity_for role user_id) ]
    else none

pub get_for_participant : ℕ → ℕ → Role → ℕ → Action (Call × Option (ℕ × Account))
get_for_participant call_id user_id role now = do
  call ← or_raise (← query (find_call call_id)) (Error.not_found "call not found")
  raise_if (not (call.client_user_id == user_id) && not (call.model_user_id == user_id))
      (Error.forbidden "not a participant")
  fresh ←
      (if is_requested call.status && is_expired now call.requested_at
        then (do
          modify (end_calls is_requested EndReason.timeout call_id now)
          find_or_throw call_id)
        else pure call)
  pure (fresh, media_for fresh role user_id)
