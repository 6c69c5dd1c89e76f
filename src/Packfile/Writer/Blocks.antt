-- ===== src/Packfile/Writer/Blocks.antt =====
-- Blocks written one after another by writeBlock of packfile/writer.go.
use event_analysis.Prelude.{◌+◌, ◌≡◌, ◌⊎◌, inl, inr, refl, ap, ◌∙◌}
use event_analysis.Prelude.{
  ℕ, List, [], ◌∷◌, ◌++◌, Bool, true, false, if◌then◌else◌, ok, err, panicked, Result, some,
}
use event_analysis.Packfile.{Error, write_failed}
use event_analysis.Packfile.Writer.{
  Writer, Outcome, and_then, write, write_block, start_writeback, keep_err,
}

-- As the serial path writes them, up to the first error.
unfoldable pub write_blocks : Writer → List (List ℕ) → Outcome
write_blocks w [] = (w, ok tt)
write_blocks w (block ∷ blocks) = and_then (write_block w block) (λ w'. write_blocks w' blocks)

-- A write is done or fails, and never panics.
pub write_block_cases :
    (w : Writer) (block : List ℕ)
    → ((w' : Writer) × (write_block w block ≡ (w', ok tt)))
      ⊎ ((w' : Writer) × (e : Error) × (write_block w block ≡ (w', err e)))
unfolding write_block keep_err
write_block_cases w block = by_answer (write w.file block).2
  where
    answered : Bool → Outcome
    answered done =
        let w' = record w {
          offsets = w.offsets ++ (w.pos ∷ []);
          file = (write w.file block).0;
          pos = w.pos + (write w.file block).1;
        } in
        if done
        then (start_writeback w', ok tt)
        else (record w' { err = some write_failed }, err write_failed)

    by_answer :
        (done : Bool)
        → ((w' : Writer) × (answered done ≡ (w', ok tt)))
          ⊎ ((w' : Writer) × (e : Error) × (answered done ≡ (w', err e)))
    by_answer true = inl (_, refl)
    by_answer false = inr (_, write_failed, refl)

pub write_blocks-append :
    (w : Writer) (xs ys : List (List ℕ))
    → write_blocks w (xs ++ ys) ≡ and_then (write_blocks w xs) (λ w'. write_blocks w' ys)
unfolding write_blocks and_then
write_blocks-append w [] ys = refl
write_blocks-append w (x ∷ xs) ys = elim (write_block_cases w x) [
  | inl (w', e) ↦ rw e (write_blocks-append w' xs ys)
  | inr (w', failure, e) ↦ rw e refl
]

-- An error ends the writes.
pub write_blocks_stop :
    (w : Writer) (xs ys : List (List ℕ)) {w' : Writer} {e : Error}
    → write_blocks w xs ≡ (w', err e)
    → write_blocks w (xs ++ ys) ≡ (w', err e)
unfolding and_then
write_blocks_stop w xs ys h =
    write_blocks-append w xs ys ∙ ap (λ o. and_then o (λ w'. write_blocks w' ys)) h

-- One block more.
pub write_blocks-snoc :
    (w : Writer) (blocks : List (List ℕ)) (block : List ℕ) {w' w'' : Writer}
    {r : Result Error (Unit {0})}
    → write_blocks w blocks ≡ (w', ok tt)
    → write_block w' block ≡ (w'', r)
    → write_blocks w (blocks ++ (block ∷ [])) ≡ (w'', r)
unfolding and_then write_blocks
write_blocks-snoc w blocks block {w'} {w''} {r} h e =
    write_blocks-append w blocks (block ∷ [])
    ∙ ap (λ o. and_then o (λ w'. write_blocks w' (block ∷ []))) h
    ∙ ap (λ o. and_then o (λ w'. (w', ok tt))) e
    ∙ and_then_done w'' r
  where
    and_then_done :
        (w : Writer) (r : Result Error (Unit {0})) → and_then (w, r) (λ w'. (w', ok tt)) ≡ (w, r)
    and_then_done w (ok u) = refl
    and_then_done w (err e) = refl
    and_then_done w panicked = refl
