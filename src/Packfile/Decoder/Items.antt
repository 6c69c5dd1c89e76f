-- ===== src/Packfile/Decoder/Items.antt =====
-- Items by index: the prefix sums cut the payload where the items end.
use event_analysis.Prelude.{ℕ, zero, suc, ◌+◌, ◌<◌, ◌≡◌, refl, sym, ap, ◌∙◌}
use event_analysis.Prelude.{
  List, [], ◌∷◌, ◌++◌, map, length, get_elem?, arith, ok, none, some, lt→ltb, length-append,
  length-map, append_assoc,
}
use event_analysis.Prelude.Slices.{index, slice-append}
use event_analysis.Packfile.{Error}
use event_analysis.Packfile.Decoder.{Decoder, sum, prefix_sums, item}
use mathlib.Core.List.{flatten}
use mathlib.Core.Option.{some-injective}

pub sum-lengths : (items : List (List ℕ)) → sum (map length items) ≡ length (flatten items)
unfolding flatten
sum-lengths [] = refl
sum-lengths (it ∷ items) = omega (arith, sum-lengths items, length-append it (flatten items))

-- Where item `i` stands: what is before it and behind it, and its two offsets.
pub record Located (offset : ℕ) (items : List (List ℕ)) (i : ℕ) (it : List ℕ) : Type 0 where
  pub front : List ℕ
  pub back : List ℕ
  pub cut : flatten items ≡ front ++ (it ++ back)
  pub here :
      index {E = Error} (prefix_sums offset (map length items)) i ≡ ok (offset + length front)
  pub next :
      index {E = Error} (prefix_sums offset (map length items)) (suc i)
      ≡ ok (offset + length front + length it)
  pub in_range : i < length items

first_sum : (offset : ℕ) (ns : List ℕ) → index {E = Error} (prefix_sums offset ns) 0 ≡ ok offset
unfolding index prefix_sums
first_sum offset [] = refl
first_sum offset (n ∷ ns) = refl

pub locate :
    (offset : ℕ) (items : List (List ℕ)) (i : ℕ) {it : List ℕ}
    → get_elem? items i ≡ some it
    → Located offset items i it
unfolding flatten prefix_sums index
locate offset [] i e = absurd (not_some e)
  where
    not_some : {a : List ℕ} → none ≡ some a → ⊥
    not_some e = cc
locate offset (x ∷ items) zero {it} e = record {
  front = [];
  back = flatten items;
  cut = ap (λ a. a ++ flatten items) same;
  here = ap ok (omega arith);
  next =
      first_sum (offset + length x) (map length items)
      ∙ ap (λ a. ok (offset + length a)) same
      ∙ ap ok (omega arith);
  in_range = omega arith;
}
  where
    same : x ≡ it
    same = some-injective x it e
locate offset (x ∷ items) (suc i) {it} e =
    let rest = locate (offset + length x) items i e in
    record {
      front = x ++ rest.front;
      back = rest.back;
      cut = ap (λ l. x ++ l) rest.cut ∙ sym (append_assoc x rest.front (it ++ rest.back));
      here = rest.here ∙ ap ok (omega (arith, length-append x rest.front));
      next = rest.next ∙ ap ok (omega (arith, length-append x rest.front));
      in_range = omega (arith, rest.in_range);
    }

-- The decoder holds these items.
pub record Holds (rd : Decoder) (items : List (List ℕ)) : Type 0 where
  pub payload : rd.decompressed ≡ flatten items
  pub sized : rd.sizes ≡ map length items
  pub summed : rd.offsets ≡ prefix_sums 0 (map length items)

pub item_lem :
    (rd : Decoder) (items : List (List ℕ)) (i : ℕ) {it : List ℕ}
    → Holds rd items
    → get_elem? items i ≡ some it
    → item rd i ≡ ok it
item_lem rd items i {it} h e =
    unfold item in
    rw
      (
        h.sized,
        h.payload,
        h.summed,
        length-map length items,
        lt→ltb i (length items) at.in_range,
        at.here,
        next,
        at.cut,
        slice-append at.front it at.back (0 + length at.front) (0 + length at.front + length it)
            (omega arith) refl,
      )
      refl
  where
    at : Located 0 items i it
    at = locate 0 items i e

    next :
        index {E = Error} (prefix_sums 0 (map length items)) (i + 1)
        ≡ ok (0 + length at.front + length it)
    next = ap (index {E = Error} (prefix_sums 0 (map length items))) (omega arith) ∙ at.next
