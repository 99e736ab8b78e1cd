-- ===== src/Client/CallScreen.antt =====
-- web/src/calls/CallScreen.tsx and useCall.ts: the screen of a call as its reactions to what
-- happens. A room of the media package is a number in the order of the calls of
-- `connectCallRoom`; a media object is the number of its token, since a reply that is equal to the
-- last one keeps the same object.
pub mod Rooms
use samy.Prelude.{
  ℕ, suc, Bool, true, false, not, ◌&&◌, ◌||◌, ◌==◌, Option, none, some, List, [], ◌∷◌,
  if◌then◌else◌, any, find_many,
}
use samy.Database.Rows.{CallStatus, is_active, is_ended}

pub record Screen : Type 0 where
  pub status : Option CallStatus
  pub media : Option ℕ
  -- `handleRef.current`
  pub handle : Option ℕ
  -- the rooms whose connection has been asked for, and those that are connected
  pub pending : List ℕ
  pub rooms : List ℕ
  pub next : ℕ
  pub muted : Bool
  pub audio_error : Bool

abbrev pub fresh_screen : Screen
fresh_screen = record {
  status = none;
  media = none;
  handle = none;
  pending = [];
  rooms = [];
  next = 0;
  muted = false;
  audio_error = false;
}

abbrev pub same_call_status : CallStatus → CallStatus → Bool
same_call_status CallStatus.requested CallStatus.requested = true
same_call_status CallStatus.active CallStatus.active = true
same_call_status CallStatus.ended CallStatus.ended = true
same_call_status _ _ = false

-- How React compares a dependency with the last one.
abbrev pub same_dep {ℓ} : {A : Type ℓ} → (A → A → Bool) → Option A → Option A → Bool
same_dep same none none = true
same_dep same (some a) (some b) = same a b
same_dep same _ _ = false

abbrev pub same_media : ℕ → ℕ → Bool
same_media a b = a == b

abbrev pub holds : (CallStatus → Bool) → Option CallStatus → Bool
holds test none = false
holds test (some s) = test s

abbrev pub has_room : ℕ → List ℕ → Bool
has_room r = any (λ i. i == r)

abbrev pub without : ℕ → List ℕ → List ℕ
without r = find_many (λ i. not (i == r))

-- `disconnect()` of the handle that is there.
abbrev pub close_handle : Screen → Screen
close_handle s = elim s.handle [
  | none ↦ s
  | some h ↦ record s { rooms = without h s.rooms; handle = none }
]

-- The effect on `[status, media]`.
abbrev pub connect_effect : Screen → Screen
connect_effect s = elim s.media [
  | none ↦ s
  | some _ ↦ elim s.handle [
    | some _ ↦ s
    | none ↦
        if holds is_active s.status
        then record s { pending = s.next ∷ s.pending; next = suc s.next }
        else s
  ]
]

-- The effect on `[status]`.
abbrev pub end_effect : Screen → Screen
end_effect s = if holds is_ended s.status then close_handle s else s

pub data Event : Type 0 where
  polled : CallStatus → Option ℕ → Event
  connected failed : ℕ → Event
  -- the media server ends the connection of a room; the screen hears nothing of it
  dropped : ℕ → Event
  hung_up mute_toggled unmounted : Event

abbrev pub on_polled : CallStatus → Option ℕ → Screen → Screen
on_polled status media s =
    let t = record s { status = some status; media = media } in
    let same = same_dep same_call_status s.status (some status) in
    let u = if same && same_dep same_media s.media media then t else connect_effect t in
    if same then u else end_effect u

abbrev pub react : Event → Screen → Screen
react (Event.polled status media) s = on_polled status media s
react (Event.connected r) s =
    if has_room r s.pending
    then record s { pending = without r s.pending; rooms = r ∷ s.rooms; handle = some r }
    else s
react (Event.failed r) s =
    if has_room r s.pending
    then record s { pending = without r s.pending; audio_error = true }
    else s
react (Event.dropped r) s = record s { rooms = without r s.rooms }
react Event.hung_up s = close_handle s
react Event.mute_toggled s = record s { muted = not s.muted }
react Event.unmounted s = elim s.handle [
  | none ↦ s
  | some h ↦ record s { rooms = without h s.rooms }
]

unfoldable pub react_all : List Event → Screen → Screen
react_all [] s = s
react_all (e ∷ es) s = react_all es (react e s)

-- Which of the screen's views is shown.
pub data Shown : Type 0 where
  ended active requested nothing : Shown

abbrev pub shown : Screen → Shown
shown s = elim s.status [
  | none ↦ Shown.nothing
  | some CallStatus.ended ↦ Shown.ended
  | some CallStatus.active ↦ Shown.active
  | some CallStatus.requested ↦ Shown.requested
]

-- `refetchInterval` of `useCall`: two seconds until the call has ended.
abbrev pub refetch_interval : Option CallStatus → Option ℕ
refetch_interval status = if holds is_ended status then none else some 2000
