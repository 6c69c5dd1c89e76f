-- ===== src/Packfile/Writer/Failure.antt =====
-- Errors of packfile/writer.go: a failed write, and calls after Close.
use event_analysis.Prelude.{ℕ, ◌+◌, ◌≡◌, refl, ap, ap₂}
use event_analysis.Prelude.{
  List, [], ◌∷◌, ◌++◌, length, take, not, ◌&&◌, if◌then◌else◌, Result, true, false, Option, none,
  some, ok, err,
}
use event_analysis.Zstd
use event_analysis.Packfile.{Error, write_failed, writer_closed, close_failed}
use event_analysis.Packfile.Writer.{
  Writer, File, Outcome, write, write_answered, write_block, keep_err, guarded, append_item, finish,
  close,
}

write-failing :
    (f : File) (bytes : List ℕ) (n : ℕ) (answers : List (Option ℕ))
    → f.answers ≡ some n ∷ answers
    → write f bytes ≡ (
      record f { content = f.content ++ take n bytes; answers = answers },
      length (take n bytes),
      false,
    )
unfolding write write_answered
write-failing f bytes n answers e = ap (λ a. write_answered a f bytes) e

-- When the file's next write fails behind some bytes, `writeBlock` returns the write error, the file
-- has exactly those bytes more and the position moved by them, and `AppendItem` of any parts and
-- `Finish` with any data return the same error and change nothing.
pub write_block-failed :
    (z : Zstd.Library) (w : Writer) (block : List ℕ) (n : ℕ) (answers : List (Option ℕ))
    (parts : List (List ℕ)) (app_data : List ℕ)
    → w.file.answers ≡ some n ∷ answers
    → (w' : Writer) × (write_block w block ≡ (w', err write_failed))
      × (w'.file.content ≡ w.file.content ++ take n block)
      × (w'.pos ≡ w.pos + length (take n block))
      × (append_item z w' parts ≡ (w', err write_failed))
      × (finish z w' app_data ≡ (w', err write_failed))
unfolding write_block keep_err append_item finish guarded
write_block-failed z w block n answers parts app_data failing = (
  record w {
    file = record w.file { content = w.file.content ++ take n block; answers = answers };
    offsets = w.offsets ++ (w.pos ∷ []);
    pos = w.pos + length (take n block);
    err = some write_failed;
  },
  rw (write-failing w.file block n answers failing) refl,
  refl,
  refl,
  refl,
  refl,
)

guarded-closed :
    (w : Writer) (rest : Outcome)
    → w.err ≡ none
    → w.closed ≡ true
    → guarded w.err w.closed w rest ≡ (w, err writer_closed)
unfolding guarded
guarded-closed w rest p q = ap₂ (λ e c. guarded e c w rest) p q

-- For a writer without an error that is not closed: `Close` removes the file, after which `AppendItem`
-- and `Finish` return the closed error and a second `Close` returns nil, none of them changing the
-- writer.
pub close_lem :
    (z : Zstd.Library) (w : Writer) (parts : List (List ℕ)) (app_data : List ℕ)
    → w.err ≡ none
    → w.closed ≡ false
    → (w' : Writer) × (r : Result Error (Unit {0})) × (close w ≡ (w', r))
      × (w'.removed ≡ true)
      × (append_item z w' parts ≡ (w', err writer_closed))
      × (finish z w' app_data ≡ (w', err writer_closed))
      × (close w' ≡ (w', ok tt))
unfolding append_item finish close
close_lem z w parts app_data p q = (
  record w { closed = true; removed = true },
  (if not w.file_closed && not w.file.closes then err close_failed else ok tt),
  ap
      (λ c. if c then (w, ok tt) else (
        record w { closed = true; removed = true },
        if not w.file_closed && not w.file.closes then err close_failed else ok tt,
      ))
      q,
  refl,
  guarded-closed (record w { closed = true; removed = true }) _ p refl,
  guarded-closed (record w { closed = true; removed = true }) _ p refl,
  refl,
)
