-- ===== src/Eventstore/RoundTrip.antt =====
-- Events through eventstore/: what AppendEvent took, ReadEvent gives back.
use event_analysis.Prelude.{ℕ, ◌+◌, ◌^◌, ◌≤◌, ◌<◌, ◌≡◌, refl, sym, ap, subst, ◌∙◌, arith}
use event_analysis.Prelude.{
  List, [], ◌∷◌, ◌++◌, map, length, take, drop, All, get_elem?, some, ok, err, panicked, Result,
  ◌>>=◌, ok-injective,
}
use event_analysis.Prelude.Int.{pos}
use event_analysis.Zstd
use event_analysis.Zstd.{IsLawful}
use event_analysis.Packfile.{Error}
use event_analysis.Packfile.Index.{encode_index}
use event_analysis.Packfile.Decoder.{prefix_sums}
use event_analysis.Packfile.Decoder.RoundTrip.{IsReadable}
use event_analysis.Packfile.Writer
use event_analysis.Packfile.Writer.{Writer, Outcome, and_then}
use event_analysis.Packfile.Writer.Invariant.{Records, blocks_of, items_of}
use event_analysis.Packfile.Writer.Runs.{append_all, Small, IsFull, and_then-ext}
use event_analysis.Packfile.Writer.Finish.{IsLast}
use event_analysis.Packfile.Writer.Whole.{new_file}
use event_analysis.Packfile.Reader.{Reader, do_open}
use event_analysis.Packfile.EndToEnd.Ranges.{read_range-write_packfile, verify-write_packfile}
use event_analysis.Packfile.EndToEnd.{outcome_of, write_packfile, read_item-write_packfile}
use event_analysis.Eventstore.{
  WriterOptions, packfile_opts, create, append_event, finish, event_count, read_event, read_events,
  verify,
}
use mathlib.Core.List.{flatten}

-- A caller's loop over `AppendEvent`.
pub append_events : Zstd.Library → Writer → List (List ℕ) → Outcome
append_events z w [] = (w, ok tt)
append_events z w (event ∷ events) =
    and_then (append_event z w event) (λ w'. append_events z w' events)

-- A caller that creates an event store, appends the events one by one, and finishes it.
pub write_events : Zstd.Library → WriterOptions → List (List ℕ) → Result Error Writer
write_events z opts events = do
  w ← create opts new_file
  outcome_of (and_then (append_events z w events) (λ w'. finish z w'))

bind-ext :
    (m : Result Error Writer) (f g : Writer → Result Error Writer)
    → ((w : Writer) → f w ≡ g w)
    → (m >>= f) ≡ (m >>= g)
bind-ext (ok w) f g h = h w
bind-ext (err e) f g h = refl
bind-ext panicked f g h = refl

append_events-append_all :
    (z : Zstd.Library) (w : Writer) (events : List (List ℕ))
    → append_events z w events ≡ append_all z w events
unfolding append_events append_event append_all
append_events-append_all z w [] = refl
append_events-append_all z w (event ∷ events) =
    and_then-ext (append_event z w event) _ _ (λ w'. append_events-append_all z w' events)

write_events-write_packfile :
    (z : Zstd.Library) (opts : WriterOptions) (events : List (List ℕ))
    → write_events z opts events ≡ write_packfile z (packfile_opts opts) events []
unfolding write_events write_packfile create finish
write_events-write_packfile z opts events =
    bind-ext (Writer.create (packfile_opts opts) new_file) _ _ (λ w.
      ap (λ o. outcome_of (and_then o (λ w'. Writer.finish z w' [])))
        (append_events-append_all z w events))

module _ (z : Zstd.Library) (law : IsLawful z) (opts : WriterOptions) (k : ℕ)
    (records last : Records) (pending : List (List ℕ)) (index_bytes : List ℕ)
    (setting : opts.items_per_record ≡ pos k) (some_room : 0 < k) (k_small : k < 2 ^ 32)
    (full : All (IsFull z opts.format k) records) (small : All Small pending)
    (short : length pending < k) (is_last : IsLast z opts.format k pending last)
    (few : length (items_of records pending) < 2 ^ 32)
    (few_records : length (records ++ last) < 2 ^ 31)
    (blocks_small : All (λ m. m < 2 ^ 32) (map length (blocks_of (records ++ last))))
    (readable : All (λ r. IsReadable opts.format (flatten r.0)) (records ++ last))
    (indexed : encode_index (prefix_sums 0 (map length (blocks_of (records ++ last))))
      ≡ ok index_bytes)
    (index_small : length index_bytes < 2 ^ 32) where
  -- For a lawful libzstd, a setting of `k` events per record with 0 < k < 2^32, events cut into full
  -- records, each with the block that the writer's format gives it, and a shorter rest with its block
  -- or no rest, events of less than 4 GiB in records that `Decode` accepts, fewer than 2^32 events,
  -- fewer than 2^31 records of less than 4 GiB each and an index of less than 4 GiB: creating the
  -- event store on a file that takes its writes, appending the events and finishing succeeds, the file
  -- opens, the reader counts the events, and the event at any position is read back.
  pub read_event-write_events :
      (i : ℕ) (event : List ℕ)
      → get_elem? (items_of records pending) i ≡ some event
      → (w : Writer) × (r : Reader) × (write_events z opts (items_of records pending) ≡ ok w)
        × (do_open w.file.content ≡ ok r)
        × (event_count r ≡ length (items_of records pending))
        × (read_event z r (pos i) ≡ ok event)
  read_event-write_events i event e =
      let (w, r, wrote, opens, count, app, reads) =
        read_item-write_packfile z law (packfile_opts opts) k records last pending [] index_bytes
          setting some_room k_small full small short is_last few few_records blocks_small readable
          (omega arith) indexed index_small i event e in
      (
        w,
        r,
        write_events-write_packfile z opts (items_of records pending) ∙ wrote,
        opens,
        count,
        reads,
      )

  -- Under the conditions of the theorem on `ReadEvent` but for the position: creating the event store,
  -- appending the events and finishing succeeds, the file opens, `Verify` returns nil, and
  -- `ReadEvents` of any range of the events yields these in order and ends without an error.
  pub read_events-write_events :
      (start count : ℕ)
      → start + count ≤ length (items_of records pending)
      → (w : Writer) × (r : Reader) × (write_events z opts (items_of records pending) ≡ ok w)
        × (do_open w.file.content ≡ ok r)
        × (verify z r ≡ ok tt)
        × ((g : ℕ) × (read_events z r (pos start) (pos count)
              ≡ (take count (drop start (items_of records pending)), ok g)))
  read_events-write_events start count h =
      let (w, r, wrote, opens, reads) =
        read_range-write_packfile z law (packfile_opts opts) k records last pending [] index_bytes
          setting some_room k_small full small short is_last few few_records blocks_small readable
          (omega arith) indexed index_small start count h in
      let (w', r', wrote', opens', same_hash, digest, verifies) =
        verify-write_packfile z law (packfile_opts opts) k records last pending [] index_bytes
          setting some_room k_small full small short is_last few few_records blocks_small readable
          (omega arith) indexed index_small in
      let same_writer : w' ≡ w = ok-injective (sym wrote' ∙ wrote) in
      let same_reader : r' ≡ r =
        ok-injective (sym opens' ∙ ap (λ t. do_open t.file.content) same_writer ∙ opens) in
      (
        w,
        r,
        write_events-write_packfile z opts (items_of records pending) ∙ wrote,
        opens,
        subst (λ t. verify z t ≡ ok tt) same_reader verifies,
        reads,
      )
