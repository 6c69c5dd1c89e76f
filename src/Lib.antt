-- ===== src/Lib.antt =====
-- A model of event-analysis: the storage of contract events in packfiles, and the codecs below it.
--
-- The parts and their files:
--   Intpack   intpack/intpack.go: groups of uint32 values as offsets from their minimum, bit-packed
--             (EncodeGroup, DecodeGroup, rangeWidth, packResiduals, unpackResiduals).
--   Event     event/event.go: the binary form of an event (Marshal, Unmarshal).
--   Zstd      zstd/zstd.go: Compressor.Encode and Decompressor.Decode over libzstd, which is a
--             parameter (Library) with what its manual promises (IsLawful).
--   Hash      hash/crc32 (Castagnoli) and crypto/sha256, which packfile calls.
--   Packfile  packfile/: constants, trailer and errors (packfile.go), and below it
--     ContentHash  contenthash.go      Index    index.go
--     Record       writer.go, the bytes of one record       Writer  writer.go, the serial path
--     Pipeline     writer.go, blockWorker and runWriter: the concurrent path
--     Decoder      decoder.go          Reader   reader.go, doOpen and ReadItem
--     Range        reader.go, ReadRange and Verify
--     Scattered    reader.go, ReadItems: the batches and the workers
--     Lookup, ReadItem, EndToEnd       how these fit together
--   Eventstore  eventstore/writer.go and reader.go: events as a packfile's items.
--     Rocksdb      eventstore/rocksdb/writer.go and reader.go: events as values of a database. RocksDB
--                  is a parameter (Library) with what its documentation promises (IsLawful).
--   Bitmapindex  bitmapindex/field.go, writer.go and reader.go: Add, Finish up to the packfile and
--             Lookup; the bitmaps (Roaring) and the minimal perfect hash (Streamhash) are parameters.
--   Prelude   lists and tests over the native numbers, byte strings, Go slices and results.
--
-- How the code is rendered. A call returns a Result: a value, an error value, or a panic (an index or
-- a slice out of range). Bytes and integers are numbers; where Go cuts a value to a width the model
-- has the remainder, and a subtraction of uint32 values wraps (sub32). A buffer that is written in
-- place is a list that the write replaces. The writer's file is its content with a script of how the
-- next writes go, so a write can fail behind any number of bytes; a call returns the writer beside its
-- result. The reader works on the file's bytes. An iterator is the list of what it yields and how it
-- ends, for a consumer that takes everything and a context that is not cancelled.
--
-- The goroutines of the concurrent writer are a relation of steps on the state of both channels, the
-- busy and the waiting workers and the variables of runWriter. A channel holds as many blocks as there
-- are workers, a step takes place only when there is room, and the order of the steps is free. The
-- map of pending blocks is a list with one entry for each number. The workers of ReadItems are a
-- relation of steps too: on the counter of batches, the flag and the first error that they share, and
-- what each of them has to go within its batch. A step is a batch taken, a call of `fn` or
-- the end of a worker, and an error is kept in the step that meets it.
--
-- DecodeGroup computes its size as an int of 64 bits, which wraps, and panics where it makes a slice of
-- more than 2^46 values, the most on a 64-bit platform. A failed allocation is not modelled.
--
-- Loops are recursion on their lists. The loop over the groups of the index runs on fuel, the number
-- of records, which the theorem about the index shows to be enough. The loop of runWriter runs on the
-- size of its map, as each round takes an entry out; the loops of ReadRange run on the number of
-- records in the range, as each round takes one at least, and the theorem about ReadRange, which ends
-- without an error, shows that to be enough. Sums of int64 offsets are not cut, as at most 2^31 deltas
-- of less than 2^32 each cannot overflow them.
--
-- Not modelled: LookupKeys of bitmapindex/reader.go and ReadPositions of eventstore/reader.go,
-- which hand positions to ReadItems; bitmapindex/rocksdb, rocksdbutil, the chunk reader and the
-- extractor, which mostly call other libraries; the pools and capacities that only lend memory,
-- the goroutine in which Open runs doOpen, and the hints to the operating system about writeback.
pub mod Prelude
pub mod Intpack
pub mod Bitmapindex
pub mod Event
pub mod Eventstore
pub mod Hash
pub mod Packfile
pub mod Zstd
