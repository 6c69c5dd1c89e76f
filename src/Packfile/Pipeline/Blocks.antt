-- ===== src/Packfile/Pipeline/Blocks.antt =====
-- The map `pending` of runWriter, packfile/writer.go, by how many of its blocks have an id.
use event_analysis.Prelude.{
  ℕ, suc, ◌+◌, ◌≤◌, ◌<◌, ◌≡◌, ◌≢◌, refl, List, [], ◌∷◌, ◌++◌, length, Option, none, some, ◌==◌,
  if◌then◌else◌, All, arith,
}
use event_analysis.Prelude.{
  eq→==, ne→==_false, ==_iff, ==_false→ne, Bool-cases, inl, inr, ap, subst, sym, ◌∙◌, append-nil,
  append_assoc,
}
use event_analysis.Packfile.Pipeline.{BlockResult, find_block, delete_block, add_digest}
use mathlib.Core.Option.{some-injective}

-- How many blocks have the id.
unfoldable pub count : ℕ → List BlockResult → ℕ
count id [] = 0
count id (b ∷ blocks) = (if b.block_id == id then 1 else 0) + count id blocks

pub count-append :
    (id : ℕ) (xs ys : List BlockResult) → count id (xs ++ ys) ≡ count id xs + count id ys
unfolding count
count-append id [] ys = omega arith
count-append id (x ∷ xs) ys = omega (arith, count-append id xs ys)

pub count-here :
    (id : ℕ) (b : BlockResult) (blocks : List BlockResult)
    → b.block_id ≡ id
    → count id (b ∷ blocks) ≡ 1 + count id blocks
unfolding count
count-here id b blocks e = rw (eq→== b.block_id id e) refl

pub count-elsewhere :
    (id : ℕ) (b : BlockResult) (blocks : List BlockResult)
    → b.block_id ≢ id
    → count id (b ∷ blocks) ≡ count id blocks
unfolding count
count-elsewhere id b blocks e = rw (ne→==_false b.block_id id e) (omega arith)

pub count-snoc :
    (id : ℕ) (blocks : List BlockResult) (b : BlockResult)
    → count id (blocks ++ (b ∷ [])) ≡ count id (b ∷ blocks)
unfolding count
count-snoc id blocks b = omega (arith, count-append id blocks (b ∷ []))

-- Whatever block is at the front, what counts is its id.
pub count_same :
    (id : ℕ) (b b' : BlockResult) (xs : List BlockResult)
    → b.block_id ≡ b'.block_id
    → count id (b ∷ xs) ≡ count id (b' ∷ xs)
unfolding count
count_same id b b' xs e = ap (λ t. (if t == id then 1 else 0) + count id xs) e

pub count-middle :
    (id : ℕ) (front : List BlockResult) (b : BlockResult) (back : List BlockResult)
    → count id (front ++ (b ∷ back)) ≡ count id (b ∷ (front ++ back))
unfolding count
count-middle id front b back =
    omega (arith, count-append id front (b ∷ back), count-append id front back)

-- Deleting an id keeps the others.
pub count-delete_block :
    (id other : ℕ) (blocks : List BlockResult)
    → id ≢ other
    → count other (delete_block id blocks) ≡ count other blocks
unfolding count delete_block
count-delete_block id other [] e = refl
count-delete_block id other (b ∷ blocks) e = elim (Bool-cases (b.block_id == id)) [
  | inl same ↦
      rw (same, ne→==_false b.block_id other (omega (arith, (==_iff b.block_id id).0 same, e)))
        (omega (arith, count-delete_block id other blocks e))
  | inr differs ↦ rw differs (omega (arith, count-delete_block id other blocks e))
]

pub length-delete_block :
    (id : ℕ) (blocks : List BlockResult) → length (delete_block id blocks) ≤ length blocks
unfolding delete_block
length-delete_block id [] = omega arith
length-delete_block id (b ∷ blocks) = elim (Bool-cases (b.block_id == id)) [
  | inl same ↦ rw same (omega (arith, length-delete_block id blocks))
  | inr differs ↦ rw differs (omega (arith, length-delete_block id blocks))
]

pub All-delete_block :
    (P : BlockResult → Type 0) (id : ℕ) (blocks : List BlockResult)
    → All P blocks
    → All P (delete_block id blocks)
unfolding delete_block
All-delete_block P id [] h = tt
All-delete_block P id (b ∷ blocks) h = elim (Bool-cases (b.block_id == id)) [
  | inl same ↦ rw same (All-delete_block P id blocks h.1)
  | inr differs ↦ rw differs (h.0, All-delete_block P id blocks h.1)
]

module _ (id : ℕ) (x : BlockResult) (blocks : List BlockResult) where
  find_block-here : x.block_id ≡ id → find_block id (x ∷ blocks) ≡ some x
  unfolding find_block
  find_block-here e = rw (eq→== x.block_id id e) refl

  find_block-elsewhere : x.block_id ≢ id → find_block id (x ∷ blocks) ≡ find_block id blocks
  unfolding find_block
  find_block-elsewhere e = rw (ne→==_false x.block_id id e) refl

  length-delete_block-here :
      x.block_id ≡ id → length (delete_block id (x ∷ blocks)) < length (x ∷ blocks)
  unfolding delete_block
  length-delete_block-here e =
      rw (eq→== x.block_id id e) (omega (arith, length-delete_block id blocks))

  length-delete_block-elsewhere :
      x.block_id ≢ id
      → length (delete_block id (x ∷ blocks)) ≡ suc (length (delete_block id blocks))
  unfolding delete_block
  length-delete_block-elsewhere e = rw (ne→==_false x.block_id id e) refl

-- A block that the map finds has the id and whatever all blocks have; taking it out shrinks the map.
pub find_block-some :
    (P : BlockResult → Type 0) (id : ℕ) (blocks : List BlockResult) {b : BlockResult}
    → All P blocks
    → find_block id blocks ≡ some b
    → (b.block_id ≡ id) × P b × (length (delete_block id blocks) < length blocks)
unfolding find_block
find_block-some P id [] h e = absurd (bad e)
  where
    bad : {A : Type 0} {x : A} → none ≡ some x → ⊥
    bad e = cc
find_block-some P id (x ∷ blocks) {b} h e = elim (Bool-cases (x.block_id == id)) [
  | inl same ↦
      let here : x.block_id ≡ id = (==_iff x.block_id id).0 same in
      let found : x ≡ b = some-injective x b (sym (find_block-here id x blocks here) ∙ e) in
      (
        sym (ap (λ t. t.block_id) found) ∙ here,
        subst P found h.0,
        length-delete_block-here id x blocks here,
      )
  | inr differs ↦
      let away : x.block_id ≢ id = ==_false→ne x.block_id id differs in
      let (same, p, less) =
        find_block-some P id blocks h.1 (sym (find_block-elsewhere id x blocks away) ∙ e) in
      (same, p, omega (arith, less, length-delete_block-elsewhere id x blocks away))
]

-- A map without the id has no block of it.
pub find_block-none :
    (id : ℕ) (blocks : List BlockResult) → find_block id blocks ≡ none → count id blocks ≡ 0
unfolding count
find_block-none id [] e = refl
find_block-none id (x ∷ blocks) e = elim (Bool-cases (x.block_id == id)) [
  | inl same ↦ absurd (bad (sym (find_block-here id x blocks ((==_iff x.block_id id).0 same)) ∙ e))
  | inr differs ↦
      let away : x.block_id ≢ id = ==_false→ne x.block_id id differs in
      count-elsewhere id x blocks away
      ∙ find_block-none id blocks (sym (find_block-elsewhere id x blocks away) ∙ e)
]
  where
    bad : {A : Type 0} {x : A} → some x ≡ none → ⊥
    bad e = cc

-- The digests of the blocks, in their order.
unfoldable pub all_digests : List BlockResult → List ℕ
all_digests [] = []
all_digests (b ∷ blocks) = add_digest b.digest [] ++ all_digests blocks

pub all_digests-snoc :
    (blocks : List BlockResult) (b : BlockResult)
    → all_digests (blocks ++ (b ∷ [])) ≡ add_digest b.digest (all_digests blocks)
unfolding all_digests add_digest
all_digests-snoc [] b = append-nil (add_digest b.digest [])
all_digests-snoc (x ∷ blocks) b =
    ap (λ t. add_digest x.digest [] ++ t) (all_digests-snoc blocks b)
    ∙ behind (add_digest x.digest []) (all_digests blocks) b.digest
  where
    behind :
        (front digests : List ℕ) (digest : Option (List ℕ))
        → front ++ add_digest digest digests ≡ add_digest digest (front ++ digests)
    behind front digests none = refl
    behind front digests (some d) = sym (append_assoc front digests d)
