-- ===== src/Marketplace/Pages.antt =====
-- The order and the size of a page of src/marketplace/discovery.service.ts.
pub mod Cover
use mathlib.Core.Path.{subst}
use samy.Prelude.{
  All-insert_by, All-take, length-take, map, any, find_many, ◌==◌, ◌&&◌, ℕ, zero, suc, ◌≡◌, ◌≤◌,
  true, false, ◌||◌, List, [], ◌∷◌, String, arith, All, length, take, drop, insert_by, sort_by,
  Bool-cases, inl, inr, ltb,
}
use samy.Database.Rows.{Call, ModelProfile, Role, is_active}
use samy.Database.{Db, ok}
use samy.Calls.{active_model_ids}
use samy.Marketplace.{ModelCard, candidates, cards_for, favorites_for, card_before, list, page}

-- No card stands behind one that should stand behind it.
abbrev pub IsOrdered : List ModelCard → Type 0
IsOrdered [] = Unit
IsOrdered (a ∷ cs) = All (λ b. card_before b a ≡ false) cs × IsOrdered cs

card_before_asym : (a b : ModelCard) → card_before a b ≡ true → card_before b a ≡ false
card_before_asym a b h = ground arith

card_before_trans :
    (a b c : ModelCard)
    → card_before b a ≡ false
    → card_before c b ≡ false
    → card_before c a ≡ false
card_before_trans a b c h k = ground arith

All-before :
    (a b : ModelCard) (cs : List ModelCard)
    → card_before b a ≡ false
    → All (λ c. card_before c b ≡ false) cs
    → All (λ c. card_before c a ≡ false) cs
All-before a b [] h k = tt
All-before a b (c ∷ cs) h k = (card_before_trans a b c h k.0, All-before a b cs h k.1)

insert-IsOrdered :
    (a : ModelCard) (cs : List ModelCard) → IsOrdered cs → IsOrdered (insert_by card_before a cs)
insert-IsOrdered a [] o = (tt, tt)
insert-IsOrdered a (b ∷ cs) o = elim (Bool-cases (card_before b a)) [
  | inl first ↦ rw first (
    All-insert_by (λ c. card_before c b ≡ false) card_before a cs (card_before_asym b a first) o.0,
    insert-IsOrdered a cs o.1,
  )
  | inr after ↦ rw after ((after, All-before a b cs after o.0), o)
]

pub sort-IsOrdered : (cs : List ModelCard) → IsOrdered (sort_by card_before cs)
sort-IsOrdered [] = tt
sort-IsOrdered (a ∷ cs) = insert-IsOrdered a (sort_by card_before cs) (sort-IsOrdered cs)

drop-IsOrdered : (n : ℕ) (cs : List ModelCard) → IsOrdered cs → IsOrdered (drop n cs)
drop-IsOrdered zero cs o = o
drop-IsOrdered (suc n) [] o = tt
drop-IsOrdered (suc n) (a ∷ cs) o = drop-IsOrdered n cs o.1

take-IsOrdered : (n : ℕ) (cs : List ModelCard) → IsOrdered cs → IsOrdered (take n cs)
take-IsOrdered zero cs o = tt
take-IsOrdered (suc n) [] o = tt
take-IsOrdered (suc n) (a ∷ cs) o =
    (All-take (λ b. card_before b a ≡ false) n cs o.0, take-IsOrdered n cs o.1)

page_lem :
    (limit offset : ℕ) (cs : List ModelCard)
    → (length (page limit offset (sort_by card_before cs)) ≤ limit)
      × IsOrdered (page limit offset (sort_by card_before cs))
page_lem limit offset cs = (
  length-take limit (drop offset (sort_by card_before cs)),
  take-IsOrdered limit (drop offset (sort_by card_before cs))
      (drop-IsOrdered offset (sort_by card_before cs) (sort-IsOrdered cs)),
)

-- A page that discovery returns was asked for with a limit from 1 to 100, has at most that many
-- cards, and is in order: online before busy before offline, favourites first among equals.
pub list-IsOrdered :
    (wanted : List String) (limit offset requester : ℕ) (role : Role) (now : ℕ) (db : Db)
    (cards : List ModelCard)
    → (list wanted limit offset requester role now db).0 ≡ ok cards
    → (1 ≤ limit) × (limit ≤ 100) × ((length cards ≤ limit) × IsOrdered cards)
unfolding list active_model_ids
list-IsOrdered wanted limit offset requester role now db cards h =
    elim (Bool-cases (ltb limit 1 || ltb 100 limit)) [
      | inl bad ↦ absurd (ground arith)
      | inr good ↦ (
        ground arith,
        ground arith,
        subst (λ (cs : List ModelCard). (length cs ≤ limit) × IsOrdered cs) (shown good)
            (page_lem limit offset unsorted),
      )
    ]
  where
    active : List ℕ
    active =
        map (λ (c : Call). c.model_user_id)
          (find_many
            (λ (c : Call).
              any (λ i. i == c.model_user_id)
                (map (λ (p : ModelProfile). p.user_id) (candidates wanted db))
              && is_active c.status)
            db.calls)

    unsorted : List ModelCard
    unsorted = cards_for (candidates wanted db) active (favorites_for role requester db) now db

    shown :
        (ltb limit 1 || ltb 100 limit) ≡ false
        → page limit offset (sort_by card_before unsorted) ≡ cards
    shown good = ground arith
