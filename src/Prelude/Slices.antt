-- ===== src/Prelude/Slices.antt =====
-- Go slice expressions and encoding/binary on byte strings; out of range they panic.
use Prim.Native.Nat.{ℕ, zero, suc, ◌+◌, ◌-◌, ◌*◌, ◌/◌, ◌%◌, ◌^◌, ◌≤◌, ◌<◌}
use mathlib.Core.Path.{◌≡◌, refl, sym, ap, ap₂, ◌∙◌}
use mathlib.Core.List.{List, [], ◌∷◌, ◌++◌, append_assoc}
use native.Mathlib.Nat.{div-add-mod, div-div-eq-div-mul}
use native.Mathlib.Omega.{arith}
use event_analysis.Prelude.Tests.{leb, if◌then◌else◌, le→leb}
use event_analysis.Prelude.Lists.{
  length, take, drop, All, length-take, length-drop, length-append, take-append_left,
  drop-append_left, All-take, All-drop, All-append, drop-drop, take_all,
}
use event_analysis.Prelude.Outcome.{Result, ok, panicked}
use event_analysis.Prelude.Bytes.{
  IsByte, le_num, le_bytes, le_num-le_bytes, le_num-append, le_num-drop, le_num-take,
}
use event_analysis.Prelude.Bits.{pow-add}

-- `buf[lo:hi]`
unfoldable pub slice {ℓ} : {E : Type 0} {A : Type ℓ} → List A → ℕ → ℕ → Result E (List A)
slice buf lo hi =
    if leb lo hi
    then (if leb hi (length buf) then ok (take (hi - lo) (drop lo buf)) else panicked)
    else panicked

-- `buf[i]`
unfoldable pub index {ℓ} : {E : Type 0} {A : Type ℓ} → List A → ℕ → Result E A
index [] i = panicked
index (x ∷ xs) zero = ok x
index (x ∷ xs) (suc i) = index xs i

-- `binary.LittleEndian.Uint32(buf[pos:])` for k = 4, and so for the other widths.
unfoldable pub get_le : {E : Type 0} → ℕ → List ℕ → ℕ → Result E ℕ
get_le k buf pos =
    if leb (pos + k) (length buf) then ok (le_num (take k (drop pos buf))) else panicked

-- `buf` with the bytes from `pos` on replaced by `bs`.
abbrev pub splice : List ℕ → ℕ → List ℕ → List ℕ
splice buf pos bs = take pos buf ++ (bs ++ drop (pos + length bs) buf)

-- `binary.LittleEndian.PutUint32(buf[pos:], v)` for k = 4, and so for the other widths.
unfoldable pub put_le : {E : Type 0} → ℕ → List ℕ → ℕ → ℕ → Result E (List ℕ)
put_le k buf pos v =
    if leb (pos + k) (length buf) then ok (splice buf pos (le_bytes k v)) else panicked

pub slice-eq-ok {ℓ} :
    {E : Type 0} {A : Type ℓ} (buf : List A) (lo hi : ℕ)
    → lo ≤ hi
    → hi ≤ length buf
    → slice {E = E} buf lo hi ≡ ok (take (hi - lo) (drop lo buf))
unfolding slice
slice-eq-ok buf lo hi p q = rw (le→leb lo hi p, le→leb hi (length buf) q)

pub slice-prefix {ℓ} :
    {E : Type 0} {A : Type ℓ} (buf : List A) (hi : ℕ)
    → hi ≤ length buf
    → slice {E = E} buf 0 hi ≡ ok (take hi buf)
slice-prefix buf hi h =
    slice-eq-ok buf 0 hi (omega arith) h ∙ ap (λ n. ok (take n buf)) (omega arith)

pub get_le-eq-ok :
    {E : Type 0} (k : ℕ) (buf : List ℕ) (pos : ℕ)
    → All IsByte buf
    → pos + k ≤ length buf
    → get_le {E = E} k buf pos ≡ ok (le_num buf / 256 ^ pos % 256 ^ k)
unfolding get_le
get_le-eq-ok k buf pos bytes h = rw (le→leb (pos + k) (length buf) h) (
    ap ok (
      le_num-take k (drop pos buf) (All-drop IsByte pos buf bytes)
      ∙ ap (λ t. t % 256 ^ k) (le_num-drop pos buf bytes)))

pub put_le-eq-ok :
    {E : Type 0} (k : ℕ) (buf : List ℕ) (pos v : ℕ)
    → pos + k ≤ length buf
    → put_le {E = E} k buf pos v ≡ ok (splice buf pos (le_bytes k v))
unfolding put_le
put_le-eq-ok k buf pos v h = rw (le→leb (pos + k) (length buf) h)

module _ (buf : List ℕ) (pos : ℕ) (bs : List ℕ) (fits : pos + length bs ≤ length buf) where
  pub length-splice : length (splice buf pos bs) ≡ length buf
  length-splice = omega (
    arith,
    length-append (take pos buf) (bs ++ drop (pos + length bs) buf),
    length-append bs (drop (pos + length bs) buf),
    length-take pos buf,
    length-drop (pos + length bs) buf,
  )

  pub splice-IsByte : All IsByte buf → All IsByte bs → All IsByte (splice buf pos bs)
  splice-IsByte h k =
      All-append IsByte (take pos buf) _ (All-take IsByte pos buf h)
        (All-append IsByte bs _ k (All-drop IsByte (pos + length bs) buf h))

  length_head : length (take pos buf) ≡ pos
  length_head = omega (arith, length-take pos buf)

  -- The number changes by what is written at `pos` less what stood there.
  pub le_num-splice :
      All IsByte buf
      → le_num (splice buf pos bs) + 256 ^ pos * (le_num buf / 256 ^ pos % 256 ^ length bs)
        ≡ le_num buf + 256 ^ pos * le_num bs
  le_num-splice h =
      omega (arith, written, div-add-mod n p, ap (λ (t : ℕ). p * t) (div-add-mod (n / p) k))
    where
      n : ℕ
      n = le_num buf

      p : ℕ
      p = 256 ^ pos

      k : ℕ
      k = 256 ^ length bs

      above : le_num (drop (pos + length bs) buf) ≡ n / p / k
      above =
          le_num-drop (pos + length bs) buf h
          ∙ ap (λ t. n / t) (pow-add 256 pos (length bs))
          ∙ sym (div-div-eq-div-mul n p k)

      written : le_num (splice buf pos bs) ≡ n % p + p * (le_num bs + k * (n / p / k))
      written =
          le_num-append (take pos buf) (bs ++ drop (pos + length bs) buf)
          ∙ ap₂ ◌+◌ (le_num-take pos buf h) (
              ap₂ ◌*◌ (ap (λ t. 256 ^ t) length_head)
                (le_num-append bs (drop (pos + length bs) buf) ∙ ap (λ t. le_num bs + k * t) above))

  -- What the write leaves below its own end.
  pub take-splice : take (pos + length bs) (splice buf pos bs) ≡ take pos buf ++ bs
  take-splice =
      ap (take (pos + length bs))
        (sym (append_assoc (take pos buf) bs (drop (pos + length bs) buf)))
      ∙ take-append_left (pos + length bs) (take pos buf ++ bs) (drop (pos + length bs) buf)
          (omega (arith, length-append (take pos buf) bs, length_head))

-- Reads of a buffer that is known as a concatenation.
pub index-append {ℓ} :
    {E : Type 0} {A : Type ℓ} (xs : List A) (y : A) (ys : List A) (i : ℕ)
    → length xs ≡ i
    → index {E = E} (xs ++ (y ∷ ys)) i ≡ ok y
unfolding index
index-append [] y ys zero h = refl
index-append [] y ys (suc i) h = absurd (omega arith)
index-append (x ∷ xs) y ys zero h = absurd (omega arith)
index-append (x ∷ xs) y ys (suc i) h = index-append xs y ys i (omega arith)

pub get_le-append :
    {E : Type 0} (k : ℕ) (xs ys zs : List ℕ) (i : ℕ)
    → length xs ≡ i
    → length ys ≡ k
    → get_le {E = E} k (xs ++ (ys ++ zs)) i ≡ ok (le_num ys)
unfolding get_le
get_le-append k xs ys zs i h e =
    rw
      (
        le→leb (i + k) (length (xs ++ (ys ++ zs)))
            (omega (arith, length-append xs (ys ++ zs), length-append ys zs)),
        drop-append_left i xs (ys ++ zs) h,
        take-append_left k ys zs e,
      )
      refl

pub slice-append {ℓ} :
    {E : Type 0} {A : Type ℓ} (xs ys zs : List A) (lo hi : ℕ)
    → length xs ≡ lo
    → lo + length ys ≡ hi
    → slice {E = E} (xs ++ (ys ++ zs)) lo hi ≡ ok ys
slice-append xs ys zs lo hi h e =
    slice-eq-ok (xs ++ (ys ++ zs)) lo hi (omega arith)
      (omega (arith, length-append xs (ys ++ zs), length-append ys zs))
    ∙ ap ok (
        ap (take (hi - lo)) (drop-append_left lo xs (ys ++ zs) h)
        ∙ take-append_left (hi - lo) ys zs (omega arith))

-- A slice of a suffix is a slice of the whole.
pub slice-drop {ℓ} :
    {E : Type 0} {A : Type ℓ} (k : ℕ) (xs : List A) (lo hi : ℕ)
    → lo ≤ hi
    → k + hi ≤ length xs
    → slice {E = E} (drop k xs) lo hi ≡ slice xs (k + lo) (k + hi)
slice-drop k xs lo hi h room =
    slice-eq-ok (drop k xs) lo hi h (omega (arith, length-drop k xs))
    ∙ ap ok (ap₂ take (omega arith) (drop-drop k lo xs))
    ∙ sym (slice-eq-ok xs (k + lo) (k + hi) (omega arith) room)

pub slice-suffix {ℓ} :
    {E : Type 0} {A : Type ℓ} (xs : List A) (lo : ℕ)
    → lo ≤ length xs
    → slice {E = E} xs lo (length xs) ≡ ok (drop lo xs)
slice-suffix xs lo h =
    slice-eq-ok xs lo (length xs) h (omega arith)
    ∙ ap ok (take_all (length xs - lo) (drop lo xs) (omega (arith, length-drop lo xs)))

-- A number is read where its bytes stand.
pub get_le-le_bytes :
    {E : Type 0} (k v : ℕ) (buf : List ℕ) (i : ℕ)
    → v < 256 ^ k
    → i + k ≤ length buf
    → take k (drop i buf) ≡ le_bytes k v
    → get_le {E = E} k buf i ≡ ok v
unfolding get_le
get_le-le_bytes k v buf i small room at =
    rw (le→leb (i + k) (length buf) room, at, le_num-le_bytes k v small) refl
