-- ===== src/Client/Hue.antt =====
-- web/src/lib/hue.ts and web/src/ui/Voiceprint.tsx: a colour and bar heights from an id, given as
-- its UTF-16 code units. `decimal` is the text of a bar's index.
use samy.Prelude.{
  ℕ, zero, suc, ◌+◌, ◌*◌, ◌%◌, ◌<◌, ◌≤◌, ◌≡◌, refl, ◌∙◌, ap, List, [], ◌∷◌, ◌++◌, arith, All,
  length,
}

-- The loop of `hueFromId`.
abbrev pub hue_from : ℕ → List ℕ → ℕ
hue_from h [] = h
hue_from h (c ∷ cs) = hue_from ((h * 31 + c) % 360) cs

abbrev pub hue_from_id : List ℕ → ℕ
hue_from_id = hue_from 0

-- `Array.from({ length }, (_, i) => …)`.
abbrev pub tabulate {ℓ} : {A : Type ℓ} → ℕ → ℕ → (ℕ → A) → List A
tabulate i zero f = []
tabulate i (suc n) f = f i ∷ tabulate (suc i) n f

-- The code of `:` is 58.
abbrev pub bar_height : (ℕ → List ℕ) → List ℕ → ℕ → ℕ
bar_height decimal seed i = hue_from_id (seed ++ 58 ∷ decimal i) % 70 + 20

abbrev pub bars : (ℕ → List ℕ) → List ℕ → List ℕ
bars decimal seed = tabulate 0 28 (bar_height decimal seed)

-- The id as a number in base 31, its first code unit the leading one.
abbrev pub base_31 : ℕ → List ℕ → ℕ
base_31 n [] = n
base_31 n (c ∷ cs) = base_31 (n * 31 + c) cs

hue_from-base_31 : (n : ℕ) (cs : List ℕ) → hue_from (n % 360) cs ≡ base_31 n cs % 360
hue_from-base_31 n [] = refl
hue_from-base_31 n (c ∷ cs) = ap (λ h. hue_from h cs) (step n c) ∙ hue_from-base_31 (n * 31 + c) cs
  where
    step : (n c : ℕ) → (n % 360 * 31 + c) % 360 ≡ (n * 31 + c) % 360
    step n c = omega arith

-- The hue of an id is the id, read as a number in base 31 with the code units as digits, modulo
-- 360: taking the remainder at every step of the loop changes nothing.
pub hue_from_id-base_31 : (cs : List ℕ) → hue_from_id cs ≡ base_31 0 cs % 360
hue_from_id-base_31 cs = hue_from-base_31 0 cs

-- A hue between 0 and 359.
hue_from_id-lt : (cs : List ℕ) → hue_from_id cs < 360
hue_from_id-lt cs = rw (hue_from_id-base_31 cs) (omega arith)

abbrev pub IsHeight : ℕ → Type 0
IsHeight h = (20 ≤ h) × (h ≤ 89)

tabulate-All :
    (P : ℕ → Type 0) (f : ℕ → ℕ) (i n : ℕ)
    → ((k : ℕ) → P (f k))
    → All P (tabulate i n f) × (length (tabulate i n f) ≡ n)
tabulate-All P f i zero h = (tt, refl)
tabulate-All P f i (suc n) h =
    let (all, size) = tabulate-All P f (suc i) n h in ((h i, all), ap suc size)

-- A voiceprint has 28 bars, each between 20 and 89 percent high.
pub bars-IsHeight :
    (decimal : ℕ → List ℕ) (seed : List ℕ)
    → All IsHeight (bars decimal seed) × (length (bars decimal seed) ≡ 28)
bars-IsHeight decimal seed =
    tabulate-All IsHeight (bar_height decimal seed) 0 28 (λ k. (omega arith, omega arith))
