-- ===== src/Packfile/Range/Batches.antt =====
-- ReadRange of packfile/reader.go, whatever the batches: the items of the range, in their order.
use event_analysis.Prelude.{
  ℕ, zero, suc, ◌+◌, ◌-◌, ◌*◌, ◌≤◌, ◌<◌, ◌≡◌, ◌⊎◌, inl, inr, min, refl, sym, ap, ap₂, subst, ◌∙◌,
  arith,
}
use event_analysis.Prelude.{
  List, [], length, take, drop, get_elem?, some, ok, leb, ltb, le→leb, leb→le, lt→leb_false,
  Bool-cases, get_elem?-map,
}
use event_analysis.Prelude.Slices.{slice, index}
use event_analysis.Zstd
use event_analysis.Zstd.{IsLawful}
use event_analysis.Packfile.{Error}
use event_analysis.Packfile.Lookup.{some_lt}
use event_analysis.Packfile.Reader.{Reader}
use event_analysis.Packfile.Writer.Invariant.{Records, blocks_of}
use event_analysis.Packfile.Range.{
  Yield, and_yield, settle, yield_record, batch_end_of, yield_batch, batch_step, yield_batches,
  read_buf_size,
}
use event_analysis.Packfile.Range.Layout.{
  IsLaid, start_of, run_of, run_of-one, slice_between, slice_in_batch, offset_at, Decoded, decoded,
}
use event_analysis.Packfile.Range.Records.{Spans, and_yield-Spans, yield_record_lem}
use native.Mathlib.Nat.{mul-le-mul_right, suc-mul}

Spans-nil : (items : List (List ℕ)) (a : ℕ) → Spans items a a ([], ok a)
Spans-nil items a = ap (λ t. (take t (drop a items), ok a)) {x = 0} (omega arith)

module _ (z : Zstd.Library) (law : IsLawful z) (r : Reader) (items : List (List ℕ))
    (records : Records) (v : IsLaid z r items records) (end last : ℕ)
    (in_last : last * r.items_per_record < end) (in_file : end ≤ length items)
    (by_last : end ≤ last * r.items_per_record + r.items_per_record) where
  abbrev k : ℕ
  k = r.items_per_record

  before_last : (j : ℕ) → j ≤ last → j * k < end
  before_last j h = omega (arith, mul-le-mul_right k h, in_last)

  record_at : (j : ℕ) → j ≤ last → Decoded z law r items records v j
  record_at j h = decoded z law r items records v j (omega (arith, before_last j h, in_file))

  last_record : last < length records
  last_record = let d = record_at last (omega arith) in some_lt records last d.at

  offset :
      (j : ℕ) → j ≤ last + 1 → index {E = Error} r.offsets j ≡ ok (start_of (blocks_of records) j)
  offset j h = offset_at z law r items records v j (omega (arith, h, last_record))

  -- The index `g` is in the record `j`.
  abbrev pub Starts : ℕ → ℕ → Type 0
  Starts j g = (j * k ≤ g) × (g < j * k + k) × (g < end)

  next_mul : (j : ℕ) → (j + 1) * k ≡ j * k + k
  next_mul j = ap (λ t. t * k) {y = suc j} (omega arith) ∙ suc-mul j k

  one_record :
      (j g : ℕ) (h : j ≤ last)
      → Starts j g
      → Spans items g (min ((j + 1) * k) end) (yield_record z r end (record_at j h).found.1 j g)
  one_record j g h (lo, hi, less) =
      let d = record_at j h in
      subst (λ t. Spans items g (min t end) (yield_record z r end d.found.1 j g)) (sym (next_mul j))
        (yield_record_lem z r items d.found.0 d.found.1 d.rd end j g d.decodes d.holds d.slice_of lo
          hi less in_file)

  -- Behind the record `j` stands the next one, or the end.
  next_Starts : (j : ℕ) → j + 1 ≤ last → Starts (j + 1) (min ((j + 1) * k) end)
  next_Starts j h =
      let less = before_last (j + 1) h in
      (omega (arith, less), omega (arith, less, v.some_room), omega (arith, less))

  next_end : (j : ℕ) → j ≡ last → min ((j + 1) * k) end ≡ end
  next_end j e = omega (arith, ap (λ t. t * k) e, next_mul j, by_last)

  block_at : (j : ℕ) (h : j ≤ last) → get_elem? (blocks_of records) j ≡ some (record_at j h).found.1
  block_at j h = get_elem?-map (λ r. r.1) records j (record_at j h).at

  in_batch :
      (i many j : ℕ) (h : j ≤ last)
      → i ≤ j
      → j < i + many
      → slice {E = Error}
          (run_of (blocks_of records) i many)
          (start_of (blocks_of records) j - start_of (blocks_of records) i)
          (start_of (blocks_of records) (j + 1) - start_of (blocks_of records) i)
        ≡ ok (record_at j h).found.1
  in_batch i many j h lo hi =
      let same : i + (j - i) ≡ j = omega (arith, lo) in
      ap
        (λ t.
          slice {E = Error} (run_of (blocks_of records) i many)
            (start_of (blocks_of records) t - start_of (blocks_of records) i)
            (start_of (blocks_of records) (t + 1) - start_of (blocks_of records) i))
        (sym same)
      ∙ slice_in_batch (blocks_of records) i many (j - i) (omega (arith, lo, hi))
          (ap (get_elem? (blocks_of records)) same ∙ block_at j h)

  -- The bytes of a batch, read at once.
  abbrev bytes_of : ℕ → ℕ → List ℕ
  bytes_of i many = run_of (blocks_of records) i many

  abbrev batch : ℕ → ℕ → ℕ → ℕ → ℕ → Yield
  batch i many n j g = yield_batch z r end (bytes_of i many) (start_of (blocks_of records) i) n j g

  first_of_batch :
      (i many n j g c : ℕ)
      → i ≤ j
      → j < i + many
      → j ≤ last
      → Starts j g
      → min ((j + 1) * k) end ≤ c
      → Spans items (min ((j + 1) * k) end) c (batch i many n (j + 1) (min ((j + 1) * k) end))
      → Spans items g c (batch i many (suc n) j g)
  unfolding yield_batch settle
  first_of_batch i many n j g c lo hi room s above others =
      rw
        (
          offset j (omega (arith, room)),
          offset (j + 1) (omega (arith, room)),
          in_batch i many j room lo hi,
        )
        (and_yield-Spans items g (min ((j + 1) * k) end) c
          (yield_record z r end (record_at j room).found.1 j g) (batch i many n (j + 1))
          (omega (arith, s.1, s.2, next_mul j)) above (one_record j g room s) others)

  batch_lem :
      (i many n j g : ℕ)
      → i ≤ j
      → j + suc n ≤ i + many
      → j + suc n ≤ last + 1
      → Starts j g
      → Spans items g (min ((j + suc n) * k) end) (batch i many (suc n) j g)
  unfolding yield_batch
  batch_lem i many zero j g lo hi room s =
      first_of_batch i many 0 j g (min ((j + 1) * k) end) lo (omega (arith, hi))
        (omega (arith, room)) s (omega arith) (Spans-nil items (min ((j + 1) * k) end))
  batch_lem i many (suc n) j g lo hi room s =
      let same : j + 1 + suc n ≡ j + suc (suc n) = omega arith in
      first_of_batch i many (suc n) j g (min ((j + suc (suc n)) * k) end) lo (omega (arith, hi))
        (omega (arith, room)) s
        (omega (arith, mul-le-mul_right {m = j + 1} {n = j + suc (suc n)} k (omega arith)))
        (subst
          (λ t.
            Spans items (min ((j + 1) * k) end) (min (t * k) end)
              (batch i many (suc n) (j + 1) (min ((j + 1) * k) end)))
          same
          (batch_lem i many n (j + 1) (min ((j + 1) * k) end) (omega (arith, lo))
            (omega (arith, hi)) (omega (arith, room)) (next_Starts j (omega (arith, room)))))

  -- The batch ends behind its first record and not behind the last.
  batch_end_lem :
      (start fuel n : ℕ)
      → start + 1 ≤ n
      → n ≤ last + 1
      → (e : ℕ) × (batch_end_of r.offsets last start fuel n ≡ ok e)
        × (start + 1 ≤ e)
        × (e ≤ last + 1)
  unfolding batch_end_of
  batch_end_lem start zero n lo hi = (n, refl, lo, hi)
  batch_end_lem start (suc fuel) n lo hi = elim (Bool-cases (leb n last)) [
    | inr beyond ↦ (n, rw beyond refl, lo, hi)
    | inl within ↦
        let (e, found, lo', hi') =
          batch_end_lem start fuel (n + 1) (omega (arith, lo))
            (omega (arith, leb→le n last within)) in
        elim (Bool-cases (
          leb (start_of (blocks_of records) (n + 1) - start_of (blocks_of records) start)
            read_buf_size)) [
              | inl fits ↦ (
                e,
                rw
                    (
                      within,
                      offset (n + 1) (omega (arith, leb→le n last within)),
                      offset start (omega (arith, lo, hi)),
                      fits,
                    )
                    found,
                lo',
                hi',
              )
              | inr too_large ↦ (
                n,
                rw
                    (
                      within,
                      offset (n + 1) (omega (arith, leb→le n last within)),
                      offset start (omega (arith, lo, hi)),
                      too_large,
                    )
                    refl,
                lo,
                hi,
              )
            ]
  ]

  -- The index `g` is in the record `j`, or everything is yielded.
  abbrev pub Next : ℕ → ℕ → Type 0
  Next j g = ((j ≤ last) × Starts j g) ⊎ ((j ≡ last + 1) × (g ≡ end))

  Next-of : (j e : ℕ) → j + 1 ≤ e → e ≤ last + 1 → Next e (min (e * k) end)
  Next-of j e lo hi = elim (Bool-cases (leb e last)) [
    | inl within ↦
        let same : (e - 1) + 1 ≡ e = omega (arith, lo) in
        inl (
          leb→le e last within,
          subst (λ t. Starts t (min (t * k) end)) same
              (next_Starts (e - 1) (omega (arith, leb→le e last within, lo))),
        )
    | inr beyond ↦
        let at_end : e ≡ last + 1 = ground (arith, le→leb e last) in
        inr (at_end, omega (arith, ap (λ t. t * k) at_end, next_mul last, by_last))
  ]

  whole_record :
      (j : ℕ) (h : j ≤ last)
      → slice {E = Error} r.file
          (start_of (blocks_of records) j)
          (start_of (blocks_of records) (j + 1))
        ≡ ok (record_at j h).found.1
  whole_record j h =
      ap
        (λ t.
          slice {E = Error} t (start_of (blocks_of records) j)
            (start_of (blocks_of records) (j + 1)))
        v.content
      ∙ slice_between (blocks_of records) v.behind j 1
      ∙ ap ok (run_of-one (blocks_of records) j (block_at j h))

  whole_batch :
      (j e : ℕ)
      → j + 1 ≤ e
      → slice {E = Error} r.file (start_of (blocks_of records) j) (start_of (blocks_of records) e)
        ≡ ok (bytes_of j (e - j))
  whole_batch j e lo =
      ap₂
        (λ t u.
          slice {E = Error} t (start_of (blocks_of records) j) (start_of (blocks_of records) u))
        v.content again
      ∙ slice_between (blocks_of records) v.behind j (e - j)
    where
      again : e ≡ j + (e - j)
      again = omega (arith, lo)

  several :
      (j e g : ℕ)
      → j ≤ last
      → j + 1 ≤ e
      → e ≤ last + 1
      → Starts j g
      → Spans items g (min (e * k) end) (batch j (e - j) (e - j) j g)
  several j e g h lo hi s =
      let size : suc (e - j - 1) ≡ e - j = omega (arith, lo) in
      let reach : j + suc (e - j - 1) ≡ e = omega (arith, lo) in
      subst (λ t. Spans items g (min (t * k) end) (batch j (e - j) (e - j) j g)) reach
        (subst (λ t. Spans items g (min ((j + suc (e - j - 1)) * k) end) (batch j (e - j) t j g))
          size
          (batch_lem j (e - j) (e - j - 1) j g (omega arith) (omega (arith, lo))
            (omega (arith, lo, hi)) s))

  step_lem :
      (rest : ℕ → ℕ → Yield) (j g : ℕ)
      → j ≤ last
      → Starts j g
      → ((e g' : ℕ) → j + 1 ≤ e → Next e g' → Spans items g' end (rest e g'))
      → (y : Yield) × (batch_step z r end last rest j g ≡ ok y) × Spans items g end y
  unfolding batch_step
  step_lem rest j g h s later =
      let (e, found, lo, hi) =
        batch_end_lem j (last - j) (j + 1) (omega arith) (omega (arith, h)) in
      let mid = min ((j + 1) * k) end in
      let below : g ≤ mid = omega (arith, s.1, s.2, next_mul j) in
      elim (Bool-cases (
        ltb read_buf_size
          (start_of (blocks_of records) (j + 1) - start_of (blocks_of records) j))) [
            | inl alone ↦ (
              and_yield (yield_record z r end (record_at j h).found.1 j g) (rest (j + 1)),
              rw
                  (
                    found,
                    offset j (omega (arith, h)),
                    offset (j + 1) (omega (arith, h)),
                    alone,
                    whole_record j h,
                  )
                  refl,
              and_yield-Spans items g mid end (yield_record z r end (record_at j h).found.1 j g)
                  (rest (j + 1)) below (omega arith) (one_record j g h s)
                  (later (j + 1) mid (omega arith)
                    (Next-of j (j + 1) (omega arith) (omega (arith, h)))),
            )
            | inr together ↦ (
              and_yield (batch j (e - j) (e - j) j g) (rest e),
              rw
                  (
                    found,
                    offset j (omega (arith, h)),
                    offset (j + 1) (omega (arith, h)),
                    together,
                    offset e hi,
                    whole_batch j e lo,
                  )
                  refl,
              and_yield-Spans items g (min (e * k) end) end (batch j (e - j) (e - j) j g) (rest e)
                  (omega (arith, below, mul-le-mul_right {m = j + 1} {n = e} k lo)) (omega arith)
                  (several j e g h lo hi s) (later e (min (e * k) end) lo (Next-of j e lo hi)),
            )
          ]

  pub batches_lem :
      (fuel j g : ℕ)
      → last + 1 ≤ j + fuel
      → Next j g
      → Spans items g end (yield_batches z r end last fuel j g)
  unfolding yield_batches settle
  batches_lem zero j g enough (inl (h, s)) = absurd (omega (arith, h, enough))
  batches_lem zero j g enough (inr (e, at_end)) =
      subst (λ t. Spans items t end ([], ok t)) (sym at_end) (Spans-nil items end)
  batches_lem (suc fuel) j g enough (inr (e, at_end)) =
      rw (lt→leb_false j last (omega (arith, e)))
        (subst (λ t. Spans items t end ([], ok t)) (sym at_end) (Spans-nil items end))
  batches_lem (suc fuel) j g enough (inl (h, s)) =
      let (y, made, spans) =
        step_lem (yield_batches z r end last fuel) j g h s
          (λ e g' lo next. batches_lem fuel e g' (omega (arith, lo, enough)) next) in
      rw (le→leb j last h, made) spans
