-- ===== src/Prelude/Bytes.antt =====
-- Byte strings as lists of numbers, and the fixed-width codecs of encoding/binary.
use Prim.Native.Nat.{ℕ, zero, suc, ◌+◌, ◌*◌, ◌/◌, ◌%◌, ◌^◌, ◌<◌}
use mathlib.Core.Path.{◌≡◌, refl, sym, ap, ap₂, ◌∙◌}
use mathlib.Core.List.{List, [], ◌∷◌, ◌++◌, reverse, reverse-reverse}
use native.Mathlib.Nat.{pow-suc, pow-succ', div-div-eq-div-mul, one-le-pow, zero-div, zero-mod}
use native.Mathlib.Nat.{mul-add-mod_self_left, mod-eq_of_lt, mod-lt, div-add-mod}
use native.Mathlib.Omega.{arith}
use mathlib.Core.Bool.{Bool, true, false, ◌&&◌}
use mathlib.Core.Logic.{inl, inr}
use event_analysis.Prelude.Tests.{ltb, leb, if◌then◌else◌, le→leb, leb→le, Bool-cases}
use event_analysis.Prelude.Lists.{length, take, drop, All}

abbrev pub IsByte : ℕ → Type 0
IsByte b = b < 256

-- The number that a byte string stands for, lowest byte first.
abbrev pub le_num : List ℕ → ℕ
le_num [] = 0
le_num (b ∷ bs) = b + 256 * le_num bs

-- The `k` lowest bytes of `v`, lowest first: `PutUint32` and its like write these.
abbrev pub le_bytes : ℕ → ℕ → List ℕ
le_bytes zero v = []
le_bytes (suc k) v = v % 256 ∷ le_bytes k (v / 256)

pub length-le_bytes : (k v : ℕ) → length (le_bytes k v) ≡ k
length-le_bytes zero v = refl
length-le_bytes (suc k) v = ap suc (length-le_bytes k (v / 256))

pub le_bytes-IsByte : (k v : ℕ) → All IsByte (le_bytes k v)
le_bytes-IsByte zero v = tt
le_bytes-IsByte (suc k) v = (omega arith, le_bytes-IsByte k (v / 256))

pub le_num-le_bytes : (k v : ℕ) → v < 256 ^ k → le_num (le_bytes k v) ≡ v
le_num-le_bytes zero v h = omega arith
le_num-le_bytes (suc k) v h =
    omega (arith, le_num-le_bytes k (v / 256) (omega (arith, pow-suc 256 k)))

pub le_num-append : (xs ys : List ℕ) → le_num (xs ++ ys) ≡ le_num xs + 256 ^ length xs * le_num ys
le_num-append [] ys = omega arith
le_num-append (x ∷ xs) ys =
    omega (arith, le_num-append xs ys, ap (λ (t : ℕ). t * le_num ys) (pow-succ' 256 (length xs)))

pub le_num-lt : (xs : List ℕ) → All IsByte xs → le_num xs < 256 ^ length xs
le_num-lt [] h = omega arith
le_num-lt (x ∷ xs) h = omega (arith, le_num-lt xs h.1, h.0, pow-suc 256 (length xs))

-- What lies from byte `n` on is the number divided, what lies below it the remainder.
pub le_num-drop : (n : ℕ) (xs : List ℕ) → All IsByte xs → le_num (drop n xs) ≡ le_num xs / 256 ^ n
le_num-drop zero xs h = omega arith
le_num-drop (suc n) [] h = sym (zero-div (256 ^ suc n))
le_num-drop (suc n) (x ∷ xs) h =
    le_num-drop n xs h.1
    ∙ ap (λ t. t / 256 ^ n) low
    ∙ div-div-eq-div-mul (x + 256 * le_num xs) 256 (256 ^ n)
    ∙ ap (λ t. (x + 256 * le_num xs) / t) (sym (pow-succ' 256 n))
  where
    low : le_num xs ≡ (x + 256 * le_num xs) / 256
    low = omega (arith, h.0)

mod_digit : (x y m : ℕ) → x < 256 → 0 < m → x + 256 * (y % m) ≡ (x + 256 * y) % (256 * m)
mod_digit x y m h pos = sym (
    ap (λ t. t % (256 * m)) split
    ∙ mul-add-mod_self_left (256 * m) (y / m) (x + 256 * (y % m))
    ∙ mod-eq_of_lt (omega (arith, h, mod-lt y pos)))
  where
    split : x + 256 * y ≡ 256 * m * (y / m) + (x + 256 * (y % m))
    split = omega (arith, div-add-mod y m)

pub le_num-take : (n : ℕ) (xs : List ℕ) → All IsByte xs → le_num (take n xs) ≡ le_num xs % 256 ^ n
le_num-take zero xs h = omega arith
le_num-take (suc n) [] h = sym (zero-mod (256 ^ suc n))
le_num-take (suc n) (x ∷ xs) h =
    ap (λ t. x + 256 * t) (le_num-take n xs h.1)
    ∙ mod_digit x (le_num xs) (256 ^ n) h.0 (one-le-pow n 256 (omega arith))
    ∙ ap (λ t. (x + 256 * le_num xs) % t) (sym (pow-succ' 256 n))

-- A byte string is the bytes of its number.
pub le_bytes-le_num : (xs : List ℕ) → All IsByte xs → le_bytes (length xs) (le_num xs) ≡ xs
le_bytes-le_num [] h = refl
le_bytes-le_num (x ∷ xs) h =
    ap₂ ◌∷◌ (omega (arith, h.0))
      (ap (le_bytes (length xs)) (omega (arith, h.0)) ∙ le_bytes-le_num xs h.1)

-- The big-endian codecs: the same bytes from the other end.
abbrev pub be_bytes : ℕ → ℕ → List ℕ
be_bytes k v = reverse (le_bytes k v)

abbrev pub be_num : List ℕ → ℕ
be_num bs = le_num (reverse bs)

pub be_num-be_bytes : (k v : ℕ) → v < 256 ^ k → be_num (be_bytes k v) ≡ v
be_num-be_bytes k v h = ap le_num (reverse-reverse (le_bytes k v)) ∙ le_num-le_bytes k v h

-- `==` on arrays of bytes.
unfoldable pub same_bytes : List ℕ → List ℕ → Bool
same_bytes [] [] = true
same_bytes [] (y ∷ ys) = false
same_bytes (x ∷ xs) [] = false
same_bytes (x ∷ xs) (y ∷ ys) = leb x y && leb y x && same_bytes xs ys

pub same_bytes_refl : (xs : List ℕ) → same_bytes xs xs ≡ true
unfolding same_bytes
same_bytes_refl [] = refl
same_bytes_refl (x ∷ xs) = rw (le→leb x x (omega arith), same_bytes_refl xs) refl

pub same_bytes_eq : (xs ys : List ℕ) → same_bytes xs ys ≡ true → xs ≡ ys
unfolding same_bytes
same_bytes_eq [] [] e = refl
same_bytes_eq [] (y ∷ ys) e = cc
same_bytes_eq (x ∷ xs) [] e = cc
same_bytes_eq (x ∷ xs) (y ∷ ys) e = elim (Bool-cases (leb x y)) [
  | inr f ↦ absurd (false_true (ap (λ t. t && leb y x && same_bytes xs ys) (sym f) ∙ e))
  | inl le ↦ elim (Bool-cases (leb y x)) [
    | inr f ↦ absurd (false_true (ap₂ (λ t u. t && u && same_bytes xs ys) (sym le) (sym f) ∙ e))
    | inl ge ↦
        ap₂ (λ t u. t ∷ u) (omega (arith, leb→le x y le, leb→le y x ge))
          (same_bytes_eq xs ys (ap₂ (λ t u. t && u && same_bytes xs ys) (sym le) (sym ge) ∙ e))
  ]
]
  where
    false_true : false ≡ true → ⊥
    false_true e = cc

-- `bytes.Compare(a, b) < 0`: byte by byte, a prefix first.
unfoldable pub lex_lt : List ℕ → List ℕ → Bool
lex_lt [] [] = false
lex_lt [] (y ∷ ys) = true
lex_lt (x ∷ xs) [] = false
lex_lt (x ∷ xs) (y ∷ ys) = if ltb x y then true else (if ltb y x then false else lex_lt xs ys)
