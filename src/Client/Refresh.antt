-- ===== src/Client/Refresh.antt =====
-- What a call of `apiFetch` (web/src/lib/api-client.ts) does to the session.
use text.Mathlib.Text.{◌==◌ as str_eq}
use text.Mathlib.TextEquality.{eq_iff}
use samy.Prelude.{
  ◌≡◌, ◌≢◌, refl, Bool, ◌&&◌, ◌==◌, Option, none, some, String, arith, Bool-cases, inl, inr,
}
use samy.Client.{
  parse_reply, Fetched, RefreshResult, Response, Session, Storage, access_of, after_first,
  after_refresh, api_fetch, is_ok, not_authenticated, refresh_and_retry,
}

-- The session that is left belongs to the user of the one that was there.
abbrev pub SameUser : Storage → Storage → Type 0
SameUser before none = Unit
SameUser none (some t) = ⊥
SameUser (some s) (some t) = t.user ≡ s.user

SameUser-refl : (storage : Storage) → SameUser storage storage
SameUser-refl none = tt
SameUser-refl (some s) = refl

-- No session is left, or one whose access token is empty.
abbrev pub IsSignedOut : Storage → Type 0
IsSignedOut none = Unit
IsSignedOut (some s) = s.access_token ≡ ""

-- How a call may end.
pub record Ends {W A : Type 0} (before : Storage) (r : Fetched A × (W × Storage)) : Type 0 where
  pub same_user : SameUser before r.1.1
  pub signed_out : r.0 ≡ not_authenticated → IsSignedOut r.1.1

-- An answer of the server, whatever its status, is never the client's own `not authenticated`.
parse_reply-answered :
    {A : Type 0} (reply : Option (Response A)) → parse_reply reply ≢ not_authenticated
parse_reply-answered none h = cc
parse_reply-answered (some r) h = elim (Bool-cases (is_ok r.status)) [
  | inl good ↦ absurd (ground arith)
  | inr bad ↦ absurd (ground arith)
]

kept :
    {W A : Type 0} (before after : Storage) (reply : Option (Response A)) (w : W)
    → SameUser before after
    → Ends before (parse_reply reply, (w, after))
kept before after reply w same = record {
  same_user = same;
  signed_out = λ h. absurd (parse_reply-answered reply h);
}

module _ {W A : Type 0} (send : Option String → W → W × Option (Response A))
    (refresh : String → W → W × Option (Response RefreshResult)) where
  after_refresh-Ends :
      (s : Session) (w : W) (reply : Option (Response RefreshResult))
      → Ends (some s) (after_refresh send refresh s w reply)
  after_refresh-Ends s w none = record { same_user = refl; signed_out = λ h. cc }
  after_refresh-Ends s w (some r) = elim (Bool-cases (is_ok r.status)) [
    | inl good ↦ elim (Bool-cases (str_eq r.body.access_token "")) [
      | inl blank ↦
          rw (good, blank)
            (record { same_user = refl; signed_out = λ h. (eq_iff r.body.access_token "").0 blank })
      | inr token ↦
          rw (good, token)
            (kept (some s)
              (some (record s {
                access_token = r.body.access_token;
                refresh_token = r.body.refresh_token;
              }))
              (send (some r.body.access_token) w).1 (send (some r.body.access_token) w).0 refl)
    ]
    | inr bad ↦ rw bad (record { same_user = tt; signed_out = λ h. tt })
  ]

  refresh_and_retry-Ends :
      (w : W) (storage : Storage) → Ends storage (refresh_and_retry send refresh w storage)
  refresh_and_retry-Ends w none = record { same_user = tt; signed_out = λ h. tt }
  refresh_and_retry-Ends w (some s) =
      after_refresh-Ends s (refresh s.refresh_token w).0 (refresh s.refresh_token w).1

  after_first-Ends :
      (use_auth : Bool) (w : W) (storage : Storage) (reply : Option (Response A))
      → Ends storage (after_first send refresh use_auth w storage reply)
  after_first-Ends use_auth w storage none = kept storage storage none w (SameUser-refl storage)
  after_first-Ends use_auth w storage (some r) = elim (Bool-cases (r.status == 401 && use_auth)) [
    | inl again ↦ rw again (refresh_and_retry-Ends w storage)
    | inr done ↦ rw done (kept storage storage (some r) w (SameUser-refl storage))
  ]

  -- However the server and the network answer, a call of `apiFetch` never changes whose session
  -- is stored nor makes one where there was none; and where it ends as not authenticated, no
  -- session is left, or the refresh has stored one whose access token is empty.
  pub api_fetch-Ends :
      (use_auth : Bool) (w : W) (storage : Storage)
      → Ends storage (api_fetch send refresh use_auth w storage)
  unfolding api_fetch
  api_fetch-Ends use_auth w storage =
      after_first-Ends use_auth (send (access_of use_auth storage) w).0 storage
        (send (access_of use_auth storage) w).1
