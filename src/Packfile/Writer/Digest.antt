-- ===== src/Packfile/Writer/Digest.antt =====
-- The content hash on the serial path of packfile/writer.go: AppendItem feeds the hasher, nothing else
-- touches it.
use mathlib.Core.List.{flatten}
use event_analysis.Prelude.Int.{pos}
use event_analysis.Prelude.{
  ok-injective, Bool-cases, inl, inr, lt→ltb, ne→==_false, All, arith, ◌<◌, replicate,
}
use event_analysis.Prelude.{ℕ, ◌+◌, ◌≡◌, refl, sym, ap, ◌∙◌}
use event_analysis.Prelude.{
  List, [], ◌∷◌, ◌++◌, Bool, true, false, if◌then◌else◌, Option, none, some, Result, ok, err,
  panicked, length, ◌==◌,
}
use event_analysis.Zstd
use event_analysis.Packfile.{Error, write_failed}
use event_analysis.Packfile.ContentHash
use event_analysis.Packfile.ContentHash.{Hasher, new_hasher}
use event_analysis.Packfile.ContentHash.Chunks.{add_all, chunked_hash, sum-add_all}
use event_analysis.Packfile.Writer.{
  Writer, Outcome, and_then, keep_err, write, write_block, start_writeback, assemble, flush,
  take_item, guarded, append_item, content_digest, create, started, resolve_items_per_record,
  WriterOptions, File,
}
use event_analysis.Packfile.Writer.Runs.{append_all}

-- What the content hash depends on.
abbrev pub hashing : Writer → Bool × Option Hasher
hashing w = (w.content_hash, w.serial_hasher)

keep_err-hasher : (o : Outcome) → hashing (keep_err o).0 ≡ hashing o.0
unfolding keep_err
keep_err-hasher (w, ok u) = refl
keep_err-hasher (w, err e) = refl
keep_err-hasher (w, panicked) = refl

start_writeback-hasher : (w : Writer) → hashing (start_writeback w) ≡ hashing w
unfolding start_writeback
start_writeback-hasher w = by_test _ w
  where
    by_test :
        (b : Bool) (w : Writer)
        → hashing (if b then record w { last_sync_pos = w.pos } else w) ≡ hashing w
    by_test true w = refl
    by_test false w = refl

write_block-hasher : (w : Writer) (block : List ℕ) → hashing (write_block w block).0 ≡ hashing w
unfolding write_block
write_block-hasher w block = by_answer (write w.file block).2 (record w {
  offsets = w.offsets ++ (w.pos ∷ []);
  file = (write w.file block).0;
  pos = w.pos + (write w.file block).1;
})
  where
    by_answer :
        (done : Bool) (w' : Writer)
        → hashing (if done then (start_writeback w', ok tt) else keep_err (w', err write_failed)).0
          ≡ hashing w'
    by_answer true w' = start_writeback-hasher w'
    by_answer false w' = keep_err-hasher (w', err write_failed)

flush-hasher : (z : Zstd.Library) (w : Writer) → hashing (flush z w).0 ≡ hashing w
unfolding flush
flush-hasher z w = by_block (assemble z w)
  where
    outcome : Result Error (List ℕ) → Outcome
    outcome r = elim r [
      | ok block ↦ write_block (record w { buf = []; sizes = [] }) block
      | err e ↦ (record w { buf = []; sizes = [] }, err e)
      | panicked ↦ (record w { buf = []; sizes = [] }, panicked)
    ]

    by_block : (r : Result Error (List ℕ)) → hashing (outcome r).0 ≡ hashing w
    by_block (ok block) = write_block-hasher (record w { buf = []; sizes = [] }) block
    by_block (err e) = refl
    by_block panicked = refl

-- The hasher behind one item, and behind many.
hash_item : Option Hasher → List ℕ → Option Hasher
hash_item none it = none
hash_item (some h) it = some (ContentHash.add h (it ∷ []))

unfoldable pub hash_items : Option Hasher → List (List ℕ) → Option Hasher
hash_items none items = none
hash_items (some h) items = some (add_all h items)

take_item-hasher :
    (w : Writer) (it : List ℕ)
    → hashing (take_item w (it ∷ [])) ≡ (w.content_hash, hash_item w.serial_hasher it)
unfolding take_item hash_item
take_item-hasher w it = ap (λ t. (w.content_hash, t)) (by_hasher w.serial_hasher)
  where
    added : Option Hasher → Option Hasher
    added h? = elim h? [ none ↦ none | some h ↦ some (ContentHash.add h (it ∷ [])) ]

    by_hasher : (h? : Option Hasher) → added h? ≡ hash_item h? it
    by_hasher none = refl
    by_hasher (some h) = refl

guarded-eq-ok :
    (w : Writer) (rest : Outcome) (e? : Option Error) (closed : Bool) {w' : Writer}
    → guarded e? closed w rest ≡ (w', ok tt)
    → rest ≡ (w', ok tt)
unfolding guarded
guarded-eq-ok w rest (some e) closed h = cc
guarded-eq-ok w rest none true h = cc
guarded-eq-ok w rest none false h = h

counted-hasher :
    (o : Outcome)
    → hashing (and_then o (λ w''. (record w'' { total = w''.total + 1 }, ok tt))).0 ≡ hashing o.0
unfolding and_then
counted-hasher (w, ok u) = refl
counted-hasher (w, err e) = refl
counted-hasher (w, panicked) = refl

append_item-hasher :
    (z : Zstd.Library) (w : Writer) (it : List ℕ) {w' : Writer}
    → append_item z w (it ∷ []) ≡ (w', ok tt)
    → hashing w' ≡ (w.content_hash, hash_item w.serial_hasher it)
unfolding append_item guarded and_then take_item
append_item-hasher z w it h =
    ap (λ o. hashing o.0) (sym (guarded-eq-ok w (body full) w.err w.closed h))
    ∙ counted-hasher (before full)
    ∙ by_size full
    ∙ take_item-hasher w it
  where
    full : Bool
    full = length (take_item w (it ∷ [])).sizes == (take_item w (it ∷ [])).items_per_record

    before : Bool → Outcome
    before b =
        if b then keep_err (flush z (take_item w (it ∷ []))) else (take_item w (it ∷ []), ok tt)

    body : Bool → Outcome
    body b = and_then (before b) (λ w''. (record w'' { total = w''.total + 1 }, ok tt))

    by_size : (b : Bool) → hashing (before b).0 ≡ hashing (take_item w (it ∷ []))
    by_size true =
        keep_err-hasher (flush z (take_item w (it ∷ []))) ∙ flush-hasher z (take_item w (it ∷ []))
    by_size false = refl

-- The last record.
pub last_flush-hasher :
    (z : Zstd.Library) (w : Writer) (b : Bool) {w' : Writer}
    → (if b then keep_err (flush z w) else (w, ok tt)) ≡ (w', ok tt)
    → hashing w' ≡ hashing w
last_flush-hasher z w true h =
    ap (λ o. hashing o.0) (sym h) ∙ keep_err-hasher (flush z w) ∙ flush-hasher z w
last_flush-hasher z w false h = ap (λ o. hashing o.0) (sym h)

and_then-eq-ok :
    (o : Outcome) (f : Writer → Outcome) {w' : Writer}
    → and_then o f ≡ (w', ok tt)
    → (w : Writer) × (o ≡ (w, ok tt)) × (f w ≡ (w', ok tt))
unfolding and_then
and_then-eq-ok (w, ok u) f h = (w, refl, h)
and_then-eq-ok (w, err e) f h = cc
and_then-eq-ok (w, panicked) f h = cc

pub append_all-hasher :
    (z : Zstd.Library) (w : Writer) (items : List (List ℕ)) {w' : Writer}
    → append_all z w items ≡ (w', ok tt)
    → hashing w' ≡ (w.content_hash, hash_items w.serial_hasher items)
unfolding append_all hash_items hash_item add_all
append_all-hasher z w [] h =
    ap (λ o. hashing o.0) (sym h) ∙ ap (λ t. (w.content_hash, t)) (unchanged w.serial_hasher)
  where
    unchanged : (h? : Option Hasher) → h? ≡ hash_items h? []
    unchanged none = refl
    unchanged (some h) = refl
append_all-hasher z w (it ∷ items) h =
    let (w1, e, e') = and_then-eq-ok (append_item z w (it ∷ [])) _ h in
    append_all-hasher z w1 items e'
    ∙ ap (λ t. (t.0, hash_items t.1 items)) (append_item-hasher z w it e)
    ∙ ap (λ t. (w.content_hash, t)) (grouped w.serial_hasher)
  where
    grouped : (h? : Option Hasher) → hash_items (hash_item h? it) items ≡ hash_items h? (it ∷ items)
    grouped none = refl
    grouped (some h) = refl

-- A new writer.
abbrev pub fresh_hasher : ℕ → Hasher
fresh_hasher k = record { digests = []; buf = []; count = 0; chunk_size = k }

pub create-hasher :
    (opts : WriterOptions) (k : ℕ) (file : File) {w : Writer}
    → opts.items_per_record ≡ pos k
    → 0 < k
    → create opts file ≡ ok w
    → hashing w ≡ (opts.content_hash, if opts.content_hash then some (fresh_hasher k) else none)
unfolding create resolve_items_per_record new_hasher
create-hasher opts k file setting some_room e = elim (Bool-cases opts.content_hash) [
  | inl hashed ↦
      let made : create opts file ≡ ok (started opts k (some (fresh_hasher k)) file) =
        rw (setting, ne→==_false k 0 (omega arith), hashed, lt→ltb 0 k some_room) refl in
      ap hashing (sym (ok-injective (sym made ∙ e)))
      ∙ ap (λ t. (opts.content_hash, if t then some (fresh_hasher k) else none)) (sym hashed)
  | inr unhashed ↦
      let made : create opts file ≡ ok (started opts k none file) =
        rw (setting, ne→==_false k 0 (omega arith), unhashed) refl in
      ap hashing (sym (ok-injective (sym made ∙ e)))
      ∙ ap (λ t. (opts.content_hash, if t then some (fresh_hasher k) else none)) (sym unhashed)
]

-- The digest of the trailer, once the items are in.
pub content_digest-items :
    (w : Writer) (k : ℕ) (content_hash : Bool) (chunks : List (List (List ℕ)))
    (rest : List (List ℕ))
    → 0 < k
    → All (λ c. length c ≡ k) chunks
    → length rest < k
    → hashing w ≡ (
      content_hash,
      hash_items (if content_hash then some (fresh_hasher k) else none) (flatten chunks ++ rest),
    )
    → content_hash ≡ true
    → content_digest w ≡ chunked_hash chunks rest
unfolding content_digest hash_items new_hasher
content_digest-items w k content_hash chunks rest some_room full short e on =
    ap digest (
      ap (λ t. t.1) e
      ∙ ap (λ t. hash_items (if t then some (fresh_hasher k) else none) (flatten chunks ++ rest))
          on)
    ∙ ap (λ t. ContentHash.sum (add_all t (flatten chunks ++ rest))) same
    ∙ summed
  where
    digest : Option Hasher → List ℕ
    digest h? = elim h? [ none ↦ replicate 32 0 | some h ↦ ContentHash.sum h ]

    made :
        (h : Hasher) × (new_hasher k ≡ ok h)
        × (ContentHash.sum (add_all h (flatten chunks ++ rest)) ≡ chunked_hash chunks rest)
    made = sum-add_all k chunks rest some_room full short

    same : fresh_hasher k ≡ made.0
    same = ok-injective (sym (rw (lt→ltb 0 k some_room) refl) ∙ made.1)

    summed : ContentHash.sum (add_all made.0 (flatten chunks ++ rest)) ≡ chunked_hash chunks rest
    summed = made.2
