-- ===== src/Marketplace/Pages/Cover.antt =====
-- Paging through discovery (src/marketplace/discovery.service.ts) with one limit: every candidate
-- is on exactly one page.
use samy.Prelude.{
  count-sort_by, length-sort_by, take-all, take-append, drop-drop, ℕ, zero, suc, ◌+◌, ◌*◌, ◌≤◌, ◌≡◌,
  refl, ◌∙◌, ap, Bool, false, ◌&&◌, ◌||◌, ◌==◌, List, [], ◌∷◌, ◌++◌, arith, count, any, drop, take,
  find_many, map, length, sort_by, if◌then◌else◌, ltb, String,
}
use samy.Database.Rows.{Call, ModelProfile, Role, is_active}
use samy.Database.{Db, Action, ok, pure, ◌>>=◌}
use samy.Calls.{active_model_ids}
use samy.Marketplace.{ModelCard, candidates, card_before, cards_for, favorites_for, list, page}
use samy.Marketplace.Pages.{IsOrdered, sort-IsOrdered}

-- `n` pages from an offset on.
unfoldable pub collect : List String → ℕ → ℕ → ℕ → ℕ → Role → ℕ → Action (List ModelCard)
collect wanted limit zero offset requester role now = pure []
collect wanted limit (suc n) offset requester role now = do
  cards ← list wanted limit offset requester role now
  rest ← collect wanted limit n (offset + limit) requester role now
  pure (cards ++ rest)

-- The models among some that have an active call.
abbrev active_of : List ModelProfile → Db → List ℕ
active_of ps db =
    map (λ (c : Call). c.model_user_id)
      (find_many
        (λ (c : Call).
          any (λ i. i == c.model_user_id) (map (λ (p : ModelProfile). p.user_id) ps)
          && is_active c.status)
        db.calls)

-- All cards, as they come and in the order of the pages.
abbrev unsorted : List String → ℕ → Role → ℕ → Db → List ModelCard
unsorted wanted requester role now db =
    cards_for (candidates wanted db) (active_of (candidates wanted db) db)
      (favorites_for role requester db) now db

all_cards : List String → ℕ → Role → ℕ → Db → List ModelCard
all_cards wanted requester role now db = sort_by card_before (unsorted wanted requester role now db)

list_lem :
    (wanted : List String) (limit offset requester : ℕ) (role : Role) (now : ℕ) (db : Db)
    → (ltb limit 1 || ltb 100 limit) ≡ false
    → list wanted limit offset requester role now db
      ≡ (ok (page limit offset (all_cards wanted requester role now db)), db)
unfolding list active_model_ids all_cards
list_lem wanted limit offset requester role now db good = ground arith

no_pages : (limit : ℕ) → 0 ≡ 0 * limit
no_pages limit = omega arith

more_pages : (n limit : ℕ) → limit + n * limit ≡ suc n * limit
more_pages n limit = omega arith

module _ (wanted : List String) (limit requester : ℕ) (role : Role) (now : ℕ) (db : Db)
    (good : (ltb limit 1 || ltb 100 limit) ≡ false) where
  joined :
      (n offset : ℕ)
      → take limit (drop offset (all_cards wanted requester role now db))
          ++ take (n * limit) (drop (offset + limit) (all_cards wanted requester role now db))
        ≡ take (suc n * limit) (drop offset (all_cards wanted requester role now db))
  joined n offset =
      let cs = all_cards wanted requester role now db in
      ap (λ ys. take limit (drop offset cs) ++ take (n * limit) ys) (drop-drop offset limit cs)
      ∙ take-append limit (n * limit) (drop offset cs)
      ∙ ap (λ k. take k (drop offset cs)) (more_pages n limit)

  collect_lem :
      (n offset : ℕ)
      → collect wanted limit n offset requester role now db
        ≡ (ok (take (n * limit) (drop offset (all_cards wanted requester role now db))), db)
  unfolding collect
  collect_lem zero offset =
      ap (λ k. (ok (take k (drop offset (all_cards wanted requester role now db))), db))
        (no_pages limit)
  collect_lem (suc n) offset = ground (
    arith,
    list_lem wanted limit offset requester role now db good,
    collect_lem n (offset + limit),
    joined n offset,
  )

abbrev pub is_card_of : ℕ → ModelCard → Bool
is_card_of m c = c.user_id == m

abbrev pub is_profile_of : ℕ → ModelProfile → Bool
is_profile_of m p = p.user_id == m

cards_for-count :
    (m : ℕ) (ps : List ModelProfile) (active favs : List ℕ) (now : ℕ) (db : Db)
    → (count (is_card_of m) (cards_for ps active favs now db) ≡ count (is_profile_of m) ps)
      × (length (cards_for ps active favs now db) ≡ length ps)
cards_for-count m [] active favs now db = (refl, refl)
cards_for-count m (p ∷ ps) active favs now db =
    let (same, size) = cards_for-count m ps active favs now db in
    (ap (λ k. (if p.user_id == m then 1 else 0) + k) same, ap suc size)

all_cards_lem :
    (wanted : List String) (requester : ℕ) (role : Role) (now m : ℕ) (db : Db)
    → IsOrdered (all_cards wanted requester role now db)
      × (count (is_card_of m) (all_cards wanted requester role now db)
          ≡ count (is_profile_of m) (candidates wanted db))
      × (length (all_cards wanted requester role now db) ≡ length (candidates wanted db))
unfolding all_cards
all_cards_lem wanted requester role now m db =
    let (same, size) =
      cards_for-count m (candidates wanted db) (active_of (candidates wanted db) db)
        (favorites_for role requester db) now db in
    let cs = unsorted wanted requester role now db in
    (
      sort-IsOrdered cs,
      count-sort_by card_before (is_card_of m) cs ∙ same,
      length-sort_by card_before cs ∙ size,
    )

-- With a limit from 1 to 100 and enough pages for all candidates, the pages of discovery from
-- offset 0 on are all answered, together they are in the order of the cards, and each model has
-- as many cards on them as it has rows among the candidates.
pub collect-partitions :
    (wanted : List String) (limit n requester : ℕ) (role : Role) (now m : ℕ) (db : Db)
    → 1 ≤ limit
    → limit ≤ 100
    → length (candidates wanted db) ≤ n * limit
    → (cards : List ModelCard) × (collect wanted limit n 0 requester role now db ≡ (ok cards, db))
      × IsOrdered cards
      × (count (is_card_of m) cards ≡ count (is_profile_of m) (candidates wanted db))
collect-partitions wanted limit n requester role now m db least most enough =
    let cs = all_cards wanted requester role now db in
    let (order, same, size) = all_cards_lem wanted requester role now m db in
    (
      cs,
      collect_lem wanted limit requester role now db (in_range limit least most) n 0
          ∙ ap (λ ys. (ok ys, db)) (take-all (n * limit) cs (omega (arith, size, enough))),
      order,
      same,
    )
  where
    in_range : (limit : ℕ) → 1 ≤ limit → limit ≤ 100 → (ltb limit 1 || ltb 100 limit) ≡ false
    in_range limit least most = ground arith
