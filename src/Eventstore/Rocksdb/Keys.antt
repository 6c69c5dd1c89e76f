-- ===== src/Eventstore/Rocksdb/Keys.antt =====
-- The keys of eventstore/rocksdb: big-endian bytes in RocksDB's order are the numbers in theirs.
use event_analysis.Prelude.{
  ℕ, zero, suc, ◌+◌, ◌*◌, ◌/◌, ◌%◌, ◌^◌, ◌<◌, ◌≡◌, refl, sym, ap, ap₂, ◌∙◌, inl, inr, arith,
}
use event_analysis.Prelude.{length, ltb, Bool-cases, ltb→lt, lt→ltb, le→ltb_false}
use event_analysis.Prelude.Bytes.{lex_lt}
use event_analysis.Eventstore.Rocksdb.{be_bytes, be_num}
use native.Mathlib.Nat.{one-le-pow, mod-lt, div-add-mod', mul-le-mul_right, suc-mul}

pub length-be_bytes : (w n : ℕ) → length (be_bytes w n) ≡ w
unfolding be_bytes
length-be_bytes zero n = refl
length-be_bytes (suc w) n = ap suc (length-be_bytes w (n % 256 ^ w))

power_pos : (w : ℕ) → 0 < 256 ^ w
power_pos w = one-le-pow w 256 (omega arith)

pub be_num-be_bytes : (w n : ℕ) → n < 256 ^ w → be_num (be_bytes w n) ≡ n
unfolding be_num be_bytes
be_num-be_bytes zero n h = omega (arith, h)
be_num-be_bytes (suc w) n h =
    ap₂ (λ t u. n / 256 ^ w * 256 ^ t + u) (length-be_bytes w (n % 256 ^ w))
      (be_num-be_bytes w (n % 256 ^ w) (mod-lt n (power_pos w)))
    ∙ div-add-mod' n (256 ^ w)

-- A smaller quotient is a smaller number.
div-lt : (a b p : ℕ) → 0 < p → a / p < b / p → a < b
div-lt a b p some h = omega (
  arith,
  div-add-mod' a p,
  div-add-mod' b p,
  mod-lt a some,
  mul-le-mul_right {m = suc (a / p)} p h,
  suc-mul (a / p) p,
)

ltb_shift : (a b x y c : ℕ) → c + x ≡ a → c + y ≡ b → ltb x y ≡ ltb a b
ltb_shift a b x y c e e' = elim (Bool-cases (ltb x y)) [
  | inl less ↦ less ∙ sym (lt→ltb a b (omega (arith, ltb→lt x y less, e, e')))
  | inr not_less ↦ not_less ∙ sym (le→ltb_false a b (ground (arith, lt→ltb x y)))
]

ltb_same_quotient : (a b p : ℕ) → a / p ≡ b / p → ltb (a % p) (b % p) ≡ ltb a b
ltb_same_quotient a b p e =
    ltb_shift a b (a % p) (b % p) (a / p * p) (div-add-mod' a p)
      (ap (λ t. t * p + b % p) e ∙ div-add-mod' b p)

-- For two numbers below 256^w, the big-endian keys of `w` bytes compare as byte strings as the numbers
-- do.
pub lex_lt-be_bytes :
    (w a b : ℕ) → a < 256 ^ w → b < 256 ^ w → lex_lt (be_bytes w a) (be_bytes w b) ≡ ltb a b
unfolding lex_lt be_bytes
lex_lt-be_bytes zero a b h h' = sym (le→ltb_false a b (omega (arith, h, h')))
lex_lt-be_bytes (suc w) a b h h' = elim (Bool-cases (ltb (a / 256 ^ w) (b / 256 ^ w))) [
  | inl less ↦ rw less (sym (lt→ltb a b (div-lt a b (256 ^ w) (power_pos w) (ltb→lt _ _ less))))
  | inr not_less ↦ elim (Bool-cases (ltb (b / 256 ^ w) (a / 256 ^ w))) [
    | inl greater ↦
        let below : b < a = div-lt b a (256 ^ w) (power_pos w) (ltb→lt _ _ greater) in
        rw (not_less, greater) (sym (le→ltb_false a b (omega (arith, below))))
    | inr not_greater ↦
        rw (not_less, not_greater)
          (lex_lt-be_bytes w (a % 256 ^ w) (b % 256 ^ w) (mod-lt a (power_pos w))
              (mod-lt b (power_pos w))
            ∙ ltb_same_quotient a b (256 ^ w) (
                ground
                  (arith, lt→ltb (a / 256 ^ w) (b / 256 ^ w), lt→ltb (b / 256 ^ w) (a / 256 ^ w))))
  ]
]
