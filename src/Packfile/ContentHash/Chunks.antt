-- ===== src/Packfile/ContentHash/Chunks.antt =====
-- What the hasher of packfile/contenthash.go hashes: the digests of the chunks, as its comment says.
use event_analysis.Prelude.{ℕ, suc, ◌+◌, ◌%◌, ◌^◌, ◌<◌, ◌≡◌, refl, sym, ap, ap₂, ◌∙◌, arith}
use event_analysis.Prelude.{
  List, [], ◌∷◌, ◌++◌, map, length, All, append_assoc, append-nil, ne→==_false, eq→==, lt→ltb, ok,
}
use event_analysis.Prelude.Bytes.{le_bytes}
use event_analysis.Hash.Sha256.{sum256}
use event_analysis.Packfile.ContentHash.{Hasher, new_hasher, add, sum}
use mathlib.Core.List.{flatten}

-- Adding items one by one.
unfoldable pub add_all : Hasher → List (List ℕ) → Hasher
add_all h [] = h
add_all h (it ∷ items) = add_all (add h (it ∷ [])) items

-- One item behind its length, and a chunk of them.
abbrev pub frame : List ℕ → List ℕ
frame it = le_bytes 4 (length it % 2 ^ 32) ++ it

abbrev pub framed : List (List ℕ) → List ℕ
framed items = flatten (map frame items)

abbrev pub chunk_digest : List (List ℕ) → List ℕ
chunk_digest items = sum256 (framed items)

-- The hash of full chunks and a shorter rest, if there is one.
unfoldable pub chunked_hash : List (List (List ℕ)) → List (List ℕ) → List ℕ
chunked_hash chunks [] = sum256 (flatten (map chunk_digest chunks))
chunked_hash chunks (it ∷ rest) =
    sum256 (flatten (map chunk_digest chunks) ++ chunk_digest (it ∷ rest))

add-short :
    (h : Hasher) (it : List ℕ)
    → h.count + 1 < h.chunk_size
    → add h (it ∷ []) ≡ record h { buf = h.buf ++ frame it; count = h.count + 1 }
unfolding add flatten
add-short h it room =
    rw (append-nil it, ne→==_false (h.count + 1) h.chunk_size (omega (arith, room))) refl

add-last :
    (h : Hasher) (it : List ℕ)
    → h.count + 1 ≡ h.chunk_size
    → add h (it ∷ [])
      ≡ record h { digests = h.digests ++ sum256 (h.buf ++ frame it); buf = []; count = 0 }
unfolding add flatten
add-last h it full = rw (append-nil it, eq→== (h.count + 1) h.chunk_size full) refl

fill :
    (h : Hasher) (items : List (List ℕ))
    → h.count + length items < h.chunk_size
    → add_all h items ≡ record h { buf = h.buf ++ framed items; count = h.count + length items }
unfolding add_all flatten
fill h [] room = ap₂ (λ b c. record h { buf = b; count = c }) (sym (append-nil h.buf)) (omega arith)
fill h (it ∷ items) room =
    ap (λ t. add_all t items) (add-short h it (omega (arith, room)))
    ∙ fill (record h { buf = h.buf ++ frame it; count = h.count + 1 }) items (omega (arith, room))
    ∙ ap₂ (λ b c. record h { buf = b; count = c }) (append_assoc h.buf (frame it) (framed items))
        (omega arith)

fill_chunk :
    (h : Hasher) (it : List ℕ) (items : List (List ℕ))
    → h.count + length (it ∷ items) ≡ h.chunk_size
    → add_all h (it ∷ items) ≡ record h {
      digests = h.digests ++ sum256 (h.buf ++ framed (it ∷ items));
      buf = [];
      count = 0;
    }
unfolding add_all flatten
fill_chunk h it [] full =
    add-last h it full
    ∙ ap (λ b. record h { digests = h.digests ++ sum256 (h.buf ++ b); buf = []; count = 0 })
        (sym (append-nil (frame it)))
fill_chunk h it (it' ∷ items) full =
    ap (λ t. add_all t (it' ∷ items)) (add-short h it (omega (arith, full)))
    ∙ fill_chunk (record h { buf = h.buf ++ frame it; count = h.count + 1 }) it' items
        (omega (arith, full))
    ∙ ap (λ b. record h { digests = h.digests ++ sum256 b; buf = []; count = 0 })
        (append_assoc h.buf (frame it) (framed (it' ∷ items)))

add_all-append :
    (h : Hasher) (xs ys : List (List ℕ)) → add_all h (xs ++ ys) ≡ add_all (add_all h xs) ys
unfolding add_all
add_all-append h [] ys = refl
add_all-append h (x ∷ xs) ys = add_all-append (add h (x ∷ [])) xs ys

-- A hasher between two chunks.
abbrev between : ℕ → List ℕ → Hasher
between k digests = record { digests = digests; buf = []; count = 0; chunk_size = k }

fill_chunks :
    (k : ℕ) (digests : List ℕ) (chunks : List (List (List ℕ)))
    → 0 < k
    → All (λ c. length c ≡ k) chunks
    → add_all (between k digests) (flatten chunks)
      ≡ between k (digests ++ flatten (map chunk_digest chunks))
unfolding add_all flatten
fill_chunks k digests [] some full = ap (between k) (sym (append-nil digests))
fill_chunks k digests ([] ∷ chunks) some full = absurd (omega (arith, full.0))
fill_chunks k digests ((it ∷ items) ∷ chunks) some full =
    add_all-append (between k digests) (it ∷ items) (flatten chunks)
    ∙ ap (λ h. add_all h (flatten chunks))
        (fill_chunk (between k digests) it items (omega (arith, full.0)))
    ∙ fill_chunks k (digests ++ chunk_digest (it ∷ items)) chunks some full.1
    ∙ ap (between k)
        (append_assoc digests (chunk_digest (it ∷ items)) (flatten (map chunk_digest chunks)))

streamed_sum :
    (k : ℕ) (chunks : List (List (List ℕ))) (rest : List (List ℕ))
    → 0 < k
    → All (λ c. length c ≡ k) chunks
    → length rest < k
    → sum (add_all (between k []) (flatten chunks ++ rest)) ≡ chunked_hash chunks rest
unfolding chunked_hash sum
streamed_sum k chunks rest some full short = ap sum before ∙ last rest
  where
    before : add_all (between k []) (flatten chunks ++ rest) ≡ record {
      digests = flatten (map chunk_digest chunks);
      buf = framed rest;
      count = 0 + length rest;
      chunk_size = k;
    }
    before =
        add_all-append (between k []) (flatten chunks) rest
        ∙ ap (λ h. add_all h rest) (fill_chunks k [] chunks some full)
        ∙ fill (between k (flatten (map chunk_digest chunks))) rest (omega (arith, short))

    last :
        (rest : List (List ℕ))
        → sum (record {
          digests = flatten (map chunk_digest chunks);
          buf = framed rest;
          count = 0 + length rest;
          chunk_size = k;
        })
          ≡ chunked_hash chunks rest
    last [] = refl
    last (it ∷ rest) = rw (lt→ltb 0 (0 + suc (length rest)) (omega arith)) refl

-- For a chunk size `k` above 0, chunks of `k` items each and a rest of fewer than `k` items: the new
-- hasher is made, and after adding the items one by one `Sum` is the hash of the digests of the chunks
-- and, if there is a rest, of its digest, where a digest is that of the items each behind its
-- four-byte length.
pub sum-add_all :
    (k : ℕ) (chunks : List (List (List ℕ))) (rest : List (List ℕ))
    → 0 < k
    → All (λ c. length c ≡ k) chunks
    → length rest < k
    → (h : Hasher) × (new_hasher k ≡ ok h)
      × (sum (add_all h (flatten chunks ++ rest)) ≡ chunked_hash chunks rest)
unfolding new_hasher
sum-add_all k chunks rest some full short =
    (between k [], rw (lt→ltb 0 k some) refl, streamed_sum k chunks rest some full short)
