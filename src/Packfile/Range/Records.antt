-- ===== src/Packfile/Range/Records.antt =====
-- The items that ReadRange of packfile/reader.go yields out of one record.
use event_analysis.Prelude.{
  ℕ, zero, suc, ◌+◌, ◌-◌, ◌*◌, ◌≤◌, ◌<◌, ◌≡◌, min, refl, sym, ap, ap₂, ◌∙◌, arith,
}
use event_analysis.Prelude.{
  List, [], ◌∷◌, ◌++◌, length, take, drop, get_elem?, some, ok, length-map, length-take,
  length-drop, take-add, drop-drop, drop_of_some, le→leb,
}
use event_analysis.Zstd
use event_analysis.Packfile.Decoder.{Decoder, decode}
use event_analysis.Packfile.Decoder.Items.{Holds, item_lem}
use event_analysis.Packfile.Reader.{Reader}
use event_analysis.Packfile.Range.Layout.{take-take}
use event_analysis.Packfile.Range.{Yield, and_yield, settle, get_decoder, yield_items, yield_record}

-- The yields are the items from `a` up to `b`, which is the next index.
abbrev pub Spans : List (List ℕ) → ℕ → ℕ → Yield → Type 0
Spans items a b y = y ≡ (take (b - a) (drop a items), ok b)

take_parts :
    {A : Type 0} (xs : List A) (a b c : ℕ)
    → a ≤ b
    → b ≤ c
    → take (b - a) (drop a xs) ++ take (c - b) (drop b xs) ≡ take (c - a) (drop a xs)
take_parts xs a b c h h' =
    ap (λ t. take (b - a) (drop a xs) ++ take (c - b) t)
      (ap (λ t. drop t xs) {y = a + (b - a)} (omega (arith, h)) ∙ sym (drop-drop a (b - a) xs))
    ∙ sym (take-add (b - a) (c - b) (drop a xs))
    ∙ ap (λ t. take t (drop a xs)) (omega (arith, h, h'))

pub and_yield-Spans :
    (items : List (List ℕ)) (a b c : ℕ) (y : Yield) (rest : ℕ → Yield)
    → a ≤ b
    → b ≤ c
    → Spans items a b y
    → Spans items b c (rest b)
    → Spans items a c (and_yield y rest)
unfolding and_yield
and_yield-Spans items a b c y rest h h' e e' =
    ap (λ t. and_yield t rest) e
    ∙ ap {A = Yield} (λ t. (take (b - a) (drop a items) ++ t.0, t.1)) e'
    ∙ ap (λ t. (t, ok c)) (take_parts items a b c h h')

pub get_some :
    {A : Type 0} (xs : List A) (i : ℕ) → i < length xs → (x : A) × (get_elem? xs i ≡ some x)
get_some [] i h = absurd (omega (arith, h))
get_some (x ∷ xs) zero h = (x, refl)
get_some (x ∷ xs) (suc i) h = get_some xs i (omega (arith, h))

yield_items_lem :
    (rd : Decoder) (its : List (List ℕ)) (i n g : ℕ)
    → Holds rd its
    → i + n ≤ length its
    → yield_items rd i n g ≡ (take n (drop i its), ok (g + n))
unfolding yield_items settle and_yield
yield_items_lem rd its i zero g h room = ap (λ t. ([], ok t)) (omega arith)
yield_items_lem rd its i (suc n) g h room =
    let (it, e) = get_some its i (omega (arith, room)) in
    rw
      (
        item_lem rd its i h e,
        yield_items_lem rd its (i + 1) n (g + 1) h (omega (arith, room)),
        drop_of_some its i e,
      )
      (ap₂ (λ t u. (it ∷ take n t, ok u)) (ap (λ t. drop t its) {y = suc i} (omega arith))
        (omega arith))

take_within :
    {A : Type 0} (n a k : ℕ) (xs : List A)
    → a + n ≤ k
    → take n (drop a (take k xs)) ≡ take n (drop a xs)
take_within n zero k xs h = take-take n k xs (omega (arith, h))
take_within n (suc a) zero xs h = absurd (omega (arith, h))
take_within n (suc a) (suc k) [] h = refl
take_within n (suc a) (suc k) (x ∷ xs) h = take_within n a k xs (omega (arith, h))

-- A record from the index `g` on, which is in it.
pub yield_record_lem :
    (z : Zstd.Library) (r : Reader) (items its : List (List ℕ)) (bytes : List ℕ) (rd : Decoder)
    (end j g : ℕ)
    → decode z (get_decoder r) bytes j ≡ ok rd
    → Holds rd its
    → its ≡ take r.items_per_record (drop (j * r.items_per_record) items)
    → j * r.items_per_record ≤ g
    → g < j * r.items_per_record + r.items_per_record
    → g < end
    → end ≤ length items
    → Spans items g
        (min (j * r.items_per_record + r.items_per_record) end)
        (yield_record z r end bytes j g)
unfolding yield_record settle
yield_record_lem z r items its bytes rd end j g decodes holds cut lo hi less bound =
    rw (decodes, le→leb (j * r.items_per_record) g lo)
      (ap (λ t. yield_items rd (g - j * r.items_per_record) t g) many
        ∙ yield_items_lem rd its (g - j * r.items_per_record) n g holds
            (omega (arith, size, lo, hi, less, bound))
        ∙ ap₂ (λ t u. (t, ok u)) taken (omega (arith, lo, hi, less)))
  where
    n : ℕ
    n = min (j * r.items_per_record + r.items_per_record) end - g

    size : length its ≡ min r.items_per_record (length items - j * r.items_per_record)
    size =
        ap length cut
        ∙ length-take r.items_per_record (drop (j * r.items_per_record) items)
        ∙ ap (min r.items_per_record) (length-drop (j * r.items_per_record) items)

    many : min (length rd.sizes) (end - j * r.items_per_record) - (g - j * r.items_per_record) ≡ n
    many = omega (arith, ap length holds.sized, length-map length its, size, lo, hi, less, bound)

    taken : take n (drop (g - j * r.items_per_record) its) ≡ take n (drop g items)
    taken =
        ap (λ t. take n (drop (g - j * r.items_per_record) t)) cut
        ∙ take_within n (g - j * r.items_per_record) r.items_per_record
            (drop (j * r.items_per_record) items) (omega (arith, lo, hi, less))
        ∙ ap (take n) (drop-drop (j * r.items_per_record) (g - j * r.items_per_record) items)
        ∙ ap (λ t. take n (drop t items)) (omega (arith, lo))
