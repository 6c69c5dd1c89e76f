-- ===== src/Packfile/Index/Deltas.antt =====
-- Offsets and their deltas.
use event_analysis.Prelude.{ℕ, zero, suc, ◌+◌, ◌-◌, ◌^◌, ◌≤◌, ◌<◌, ◌≡◌, refl, ap, ◌∙◌}
use event_analysis.Prelude.{List, [], ◌∷◌, ◌++◌, length, take, drop, All, arith, ok, le→leb}
use event_analysis.Intpack.{IsU32}
use event_analysis.Packfile.Index.{deltas_of, offsets_from}

abbrev pub diffs : List ℕ → List ℕ
diffs [] = []
diffs (x ∷ []) = []
diffs (x ∷ (y ∷ offsets)) = (y - x) ∷ diffs (y ∷ offsets)

-- The offsets grow, each by less than 4 GiB.
abbrev pub Ascends : List ℕ → Type 0
Ascends [] = Unit
Ascends (x ∷ []) = Unit
Ascends (x ∷ (y ∷ offsets)) = (x ≤ y) × (y - x < 2 ^ 32) × Ascends (y ∷ offsets)

abbrev pub last_or : ℕ → List ℕ → ℕ
last_or x [] = x
last_or x (y ∷ ys) = last_or y ys

pub deltas_of_lem : (offsets : List ℕ) → Ascends offsets → deltas_of offsets ≡ ok (diffs offsets)
unfolding deltas_of
deltas_of_lem [] h = refl
deltas_of_lem (x ∷ []) h = refl
deltas_of_lem (x ∷ (y ∷ offsets)) h =
    rw (le→leb (y - x) (2 ^ 32 - 1) (omega (arith, h.1)), deltas_of_lem (y ∷ offsets) h.2) refl

pub diffs-IsU32 : (offsets : List ℕ) → Ascends offsets → All IsU32 (diffs offsets)
diffs-IsU32 [] h = tt
diffs-IsU32 (x ∷ []) h = tt
diffs-IsU32 (x ∷ (y ∷ offsets)) h = (h.1, diffs-IsU32 (y ∷ offsets) h.2)

pub length-diffs : (x : ℕ) (offsets : List ℕ) → length (diffs (x ∷ offsets)) ≡ length offsets
length-diffs x [] = refl
length-diffs x (y ∷ offsets) = ap suc (length-diffs y offsets)

pub Ascends-drop : (n : ℕ) (offsets : List ℕ) → Ascends offsets → Ascends (drop n offsets)
Ascends-drop zero offsets h = h
Ascends-drop (suc n) [] h = tt
Ascends-drop (suc zero) (x ∷ []) h = tt
Ascends-drop (suc (suc n)) (x ∷ []) h = tt
Ascends-drop (suc n) (x ∷ (y ∷ offsets)) h = Ascends-drop n (y ∷ offsets) h.2

pub Ascends-take : (n : ℕ) (offsets : List ℕ) → Ascends offsets → Ascends (take n offsets)
Ascends-take zero offsets h = tt
Ascends-take (suc n) [] h = tt
Ascends-take (suc zero) (x ∷ offsets) h = tt
Ascends-take (suc (suc n)) (x ∷ []) h = tt
Ascends-take (suc (suc n)) (x ∷ (y ∷ offsets)) h =
    (h.0, h.1, Ascends-take (suc n) (y ∷ offsets) h.2)

pub diffs-drop : (n : ℕ) (offsets : List ℕ) → diffs (drop n offsets) ≡ drop n (diffs offsets)
diffs-drop zero offsets = refl
diffs-drop (suc n) [] = refl
diffs-drop (suc zero) (x ∷ []) = refl
diffs-drop (suc (suc n)) (x ∷ []) = refl
diffs-drop (suc n) (x ∷ (y ∷ offsets)) = diffs-drop n (y ∷ offsets)

pub diffs-take : (n : ℕ) (offsets : List ℕ) → diffs (take (suc n) offsets) ≡ take n (diffs offsets)
diffs-take zero [] = refl
diffs-take (suc n) [] = refl
diffs-take zero (x ∷ []) = refl
diffs-take (suc n) (x ∷ []) = refl
diffs-take zero (x ∷ (y ∷ offsets)) = refl
diffs-take (suc n) (x ∷ (y ∷ offsets)) = ap (λ t. (y - x) ∷ t) (diffs-take n (y ∷ offsets))

-- The running sums of the deltas are the offsets again.
pub offsets_from-diffs :
    (x : ℕ) (offsets : List ℕ)
    → Ascends (x ∷ offsets)
    → ((offsets_from x (diffs (x ∷ offsets))).0 ++ (last_or x offsets ∷ []) ≡ x ∷ offsets)
      × ((offsets_from x (diffs (x ∷ offsets))).1 ≡ last_or x offsets)
unfolding offsets_from
offsets_from-diffs x [] h = (refl, refl)
offsets_from-diffs x (y ∷ offsets) h =
    let up : x + (y - x) ≡ y = omega (arith, h.0) in
    let (starts, end) = offsets_from-diffs y offsets h.2 in
    (
      ap (λ t. x ∷ ((offsets_from t (diffs (y ∷ offsets))).0 ++ (last_or y offsets ∷ []))) up
          ∙ ap (λ t. x ∷ t) starts,
      ap (λ t. (offsets_from t (diffs (y ∷ offsets))).1) up ∙ end,
    )
