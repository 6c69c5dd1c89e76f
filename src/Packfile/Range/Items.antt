-- ===== src/Packfile/Range/Items.antt =====
-- ReadRange of packfile/reader.go in one equation.
use event_analysis.Prelude.{
  ℕ, zero, suc, ◌+◌, ◌-◌, ◌*◌, ◌/◌, ◌≤◌, ◌<◌, ◌≡◌, inl, inr, refl, ap, ◌∙◌, arith,
}
use event_analysis.Prelude.{List, length, take, drop, ok, leb, le→leb, leb→le, Bool-cases}
use event_analysis.Prelude.Int.{pos}
use event_analysis.Zstd
use event_analysis.Zstd.{IsLawful}
use event_analysis.Packfile.Reader.{Reader}
use event_analysis.Packfile.Writer.Invariant.{Records}
use event_analysis.Packfile.Range.{read_range}
use event_analysis.Packfile.Range.Layout.{IsLaid}
use event_analysis.Packfile.Range.Batches.{batches_lem}
use native.Mathlib.Nat.{mul-le-mul_right, suc-mul, mod-lt, div-add-mod'}

div_le : (a b k : ℕ) → 0 < k → a ≤ b → a / k ≤ b / k
div_le a b k some_room h = elim (Bool-cases (leb (b / k + 1) (a / k))) [
  | inl beyond ↦ absurd (
      omega (
        arith,
        div-add-mod' a k,
        div-add-mod' b k,
        mod-lt b some_room,
        mul-le-mul_right k (leb→le (b / k + 1) (a / k) beyond),
        ap (λ t. t * k) {x = b / k + 1} {y = suc (b / k)} (omega arith),
        suc-mul (b / k) k,
      ))
  | inr within ↦ ground (arith, le→leb (b / k + 1) (a / k))
]

pub read_range_lem :
    (z : Zstd.Library) (law : IsLawful z) (r : Reader) (items : List (List ℕ)) (records : Records)
    (v : IsLaid z r items records) (start count : ℕ)
    → start + count ≤ length items
    → (g : ℕ) × (read_range z r (pos start) (pos count) ≡ (take count (drop start items), ok g))
unfolding read_range
read_range_lem z law r items records v start zero h = (0, refl)
read_range_lem z law r items records v start (suc m) h =
    let k = r.items_per_record in
    let in_file : start + (m + 1) ≤ length items = omega (arith, h) in
    let last : ℕ = (start + m) / k in
    (
      start + (m + 1),
      rw
          (
            le→leb start r.total_items (omega (arith, v.total, h)),
            le→leb (m + 1) (r.total_items - start) (omega (arith, v.total, h)),
          )
          (batches_lem z law r items records v (start + (m + 1)) last
              (omega (arith, div-add-mod' (start + m) k)) in_file
              (omega (arith, div-add-mod' (start + m) k, mod-lt (start + m) v.some_room))
              (last + 1 - start / k) (start / k) start
              (omega (arith, div_le start (start + m) k v.some_room (omega arith)))
              (inl (
                div_le start (start + m) k v.some_room (omega arith),
                (
                  omega (arith, div-add-mod' start k),
                  omega (arith, div-add-mod' start k, mod-lt start v.some_room),
                  omega arith,
                ),
              ))
            ∙ ap (λ t. (take t (drop start items), ok (start + (m + 1)))) {y = suc m}
                (omega arith)),
    )
