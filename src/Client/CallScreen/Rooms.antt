-- ===== src/Client/CallScreen/Rooms.antt =====
-- The rooms that the call screen (web/src/calls/CallScreen.tsx) leaves connected.
use samy.Prelude.{ℕ, ◌≡◌, ◌<◌, Bool, true, false, ◌==◌, Option, none, some}
use samy.Client.CallScreen.{Event, Screen, has_room}

abbrev pub is_handle : ℕ → Option ℕ → Bool
is_handle r none = false
is_handle r (some h) = h == r

-- A room that is connected, that the screen has no handle of, and that will not be connected again.
pub record IsLost (r : ℕ) (s : Screen) : Type 0 where
  pub is_open : has_room r s.rooms ≡ true
  pub is_other : is_handle r s.handle ≡ false
  pub is_settled : has_room r s.pending ≡ false
  pub is_past : r < s.next

-- The media server ends the connection of the room.
abbrev pub is_dropped : ℕ → Event → Bool
is_dropped r (Event.dropped q) = q == r
is_dropped r _ = false
