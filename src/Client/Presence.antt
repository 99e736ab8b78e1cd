-- ===== src/Client/Presence.antt =====
-- web/src/model/usePresence.ts with `heartbeat` of the server: a model that has switched herself
-- on sends a heartbeat at once and every 20 seconds, and each keeps her online for 30.
use samy.Prelude.{
  ℕ, suc, ◌+◌, ◌*◌, ◌<◌, ◌≤◌, ◌≡◌, ◌==◌, ==_refl, refl, Bool, true, false, not, ◌&&◌, List, [], ◌∷◌,
  arith, All, any, find_many, ltb, Bool-cases, inl, inr,
}
use samy.Database.Rows.{PresenceKey}
use samy.Database.{Db}
use samy.Calls.{is_online}
use samy.Marketplace.{heartbeat}

abbrev pub heartbeat_ms : ℕ
heartbeat_ms = 20000

-- When beat `n` is sent, by a switch that was turned on at `on_at`.
abbrev pub beat_at : ℕ → ℕ → ℕ
beat_at on_at n = on_at + heartbeat_ms * n

-- Heartbeats of any models in the order in which they reach the server, each with its model and
-- time.
unfoldable pub beat_all : List (ℕ × ℕ) → Db → Db
beat_all [] db = db
beat_all ((m, at) ∷ beats) db = beat_all beats (heartbeat m at db).1

abbrev is_key : ℕ → ℕ → PresenceKey → Bool
is_key now m k = k.model_id == m && ltb now k.expires_at

others-kept :
    (now m k : ℕ) (keys : List PresenceKey)
    → (k == m) ≡ false
    → any (is_key now m) (find_many (λ q. not (q.model_id == k)) keys) ≡ any (is_key now m) keys
others-kept now m k [] other = refl
others-kept now m k (q ∷ keys) other = ground (arith, others-kept now m k keys other)

heartbeat-online :
    (now m k at : ℕ) (db : Db)
    → now < at + 30000
    → is_online now m db.presence ≡ true
    → is_online now m (heartbeat k at db).1.presence ≡ true
unfolding heartbeat
heartbeat-online now m k at db soon on = elim (Bool-cases (k == m)) [
  | inl same ↦ ground arith
  | inr other ↦ ground (arith, others-kept now m k db.presence other)
]

beat-online :
    (now m at : ℕ) (db : Db)
    → now < at + 30000
    → is_online now m (heartbeat m at db).1.presence ≡ true
unfolding heartbeat
beat-online now m at db soon = ground (arith, ==_refl m)

beat_all-online :
    (now m from_ : ℕ) (beats : List (ℕ × ℕ)) (db : Db)
    → now < from_ + 30000
    → All (λ (b : ℕ × ℕ). from_ ≤ b.1) beats
    → is_online now m db.presence ≡ true
    → is_online now m (beat_all beats db).presence ≡ true
unfolding beat_all
beat_all-online now m from_ [] db soon later on = on
beat_all-online now m from_ ((k, at) ∷ beats) db soon later on =
    beat_all-online now m from_ beats (heartbeat k at db).1 soon later.1
      (heartbeat-online now m k at db (omega (arith, later.0)) on)

-- Beat `n` of a model reaches the server with some delay, and after it heartbeats of any models
-- and no earlier ones. Where beat `n + 1` is delayed by less than ten seconds more than beat `n`,
-- the server shows the model online at every moment from the one to the other.
pub beat_all-continuous :
    (on_at n m now : ℕ) (delay : ℕ → ℕ) (beats : List (ℕ × ℕ)) (db : Db)
    → delay (suc n) < delay n + 10000
    → All (λ (b : ℕ × ℕ). beat_at on_at n + delay n ≤ b.1) beats
    → now ≤ beat_at on_at (suc n) + delay (suc n)
    → is_online now m (beat_all ((m, beat_at on_at n + delay n) ∷ beats) db).presence ≡ true
unfolding beat_all
beat_all-continuous on_at n m now delay beats db even later soon =
    beat_all-online now m (beat_at on_at n + delay n) beats
      (heartbeat m (beat_at on_at n + delay n) db).1 (omega (arith, even, soon)) later
      (beat-online now m (beat_at on_at n + delay n) db (omega (arith, even, soon)))
