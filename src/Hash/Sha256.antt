-- ===== src/Hash/Sha256.antt =====
-- crypto/sha256.
use event_analysis.Prelude.{
  ℕ, zero, suc, ◌+◌, ◌-◌, ◌*◌, ◌/◌, ◌%◌, ◌^◌, ◌≡◌, refl, List, [], ◌∷◌, ◌++◌, get_elem?, length,
  take, drop, replicate, bit_and,
}
use event_analysis.Prelude.Bytes.{be_bytes, be_num}
use event_analysis.Hash.{word32, rotr, not32}
use Prim.Native.Nat.{bit_xor}
use mathlib.Core.Option

record State : Type 0 where
  a : ℕ
  b : ℕ
  c : ℕ
  d : ℕ
  e : ℕ
  f : ℕ
  g : ℕ
  h : ℕ

abbrev constants : List ℕ
constants =
    0x428a2f98 ∷ 0x71374491 ∷ 0xb5c0fbcf ∷ 0xe9b5dba5 ∷ 0x3956c25b ∷ 0x59f111f1 ∷ 0x923f82a4
    ∷ 0xab1c5ed5 ∷ 0xd807aa98 ∷ 0x12835b01 ∷ 0x243185be ∷ 0x550c7dc3 ∷ 0x72be5d74 ∷ 0x80deb1fe
    ∷ 0x9bdc06a7 ∷ 0xc19bf174 ∷ 0xe49b69c1 ∷ 0xefbe4786 ∷ 0x0fc19dc6 ∷ 0x240ca1cc ∷ 0x2de92c6f
    ∷ 0x4a7484aa ∷ 0x5cb0a9dc ∷ 0x76f988da ∷ 0x983e5152 ∷ 0xa831c66d ∷ 0xb00327c8 ∷ 0xbf597fc7
    ∷ 0xc6e00bf3 ∷ 0xd5a79147 ∷ 0x06ca6351 ∷ 0x14292967 ∷ 0x27b70a85 ∷ 0x2e1b2138 ∷ 0x4d2c6dfc
    ∷ 0x53380d13 ∷ 0x650a7354 ∷ 0x766a0abb ∷ 0x81c2c92e ∷ 0x92722c85 ∷ 0xa2bfe8a1 ∷ 0xa81a664b
    ∷ 0xc24b8b70 ∷ 0xc76c51a3 ∷ 0xd192e819 ∷ 0xd6990624 ∷ 0xf40e3585 ∷ 0x106aa070 ∷ 0x19a4c116
    ∷ 0x1e376c08 ∷ 0x2748774c ∷ 0x34b0bcb5 ∷ 0x391c0cb3 ∷ 0x4ed8aa4a ∷ 0x5b9cca4f ∷ 0x682e6ff3
    ∷ 0x748f82ee ∷ 0x78a5636f ∷ 0x84c87814 ∷ 0x8cc70208 ∷ 0x90befffa ∷ 0xa4506ceb ∷ 0xbef9a3f7
    ∷ 0xc67178f2 ∷ []

abbrev start : State
start = record {
  a = 0x6a09e667;
  b = 0xbb67ae85;
  c = 0x3c6ef372;
  d = 0xa54ff53a;
  e = 0x510e527f;
  f = 0x9b05688c;
  g = 0x1f83d9ab;
  h = 0x5be0cd19;
}

xor3 : ℕ → ℕ → ℕ → ℕ
xor3 x y z = bit_xor x (bit_xor y z)

-- The word `back` places before the next one of the message schedule, which is kept newest first.
past : List ℕ → ℕ → ℕ
past ws back = Option.get_or (get_elem? ws (back - 1)) 0

extend : ℕ → List ℕ → List ℕ
unfolding past xor3
extend zero ws = ws
extend (suc k) ws =
    let x = past ws 15 in
    let y = past ws 2 in
    let s0 = xor3 (rotr 7 x) (rotr 18 x) (x / 2 ^ 3) in
    let s1 = xor3 (rotr 17 y) (rotr 19 y) (y / 2 ^ 10) in
    extend k (word32 (past ws 16 + s0 + past ws 7 + s1) ∷ ws)

rounds : List ℕ → List ℕ → State → State
unfolding xor3
rounds [] ws s = s
rounds (k ∷ ks) [] s = s
rounds (k ∷ ks) (w ∷ ws) s =
    let choice = bit_xor (bit_and s.e s.f) (bit_and (not32 s.e) s.g) in
    let majority = xor3 (bit_and s.a s.b) (bit_and s.a s.c) (bit_and s.b s.c) in
    let t1 = s.h + xor3 (rotr 6 s.e) (rotr 11 s.e) (rotr 25 s.e) + choice + k + w in
    let t2 = xor3 (rotr 2 s.a) (rotr 13 s.a) (rotr 22 s.a) + majority in
    rounds ks ws (record {
      a = word32 (t1 + t2);
      b = s.a;
      c = s.b;
      d = s.c;
      e = word32 (s.d + t1);
      f = s.e;
      g = s.f;
      h = s.g;
    })

-- The words of a block, last word first.
words : ℕ → List ℕ → List ℕ → List ℕ
words zero bs acc = acc
words (suc k) bs acc = words k (drop 4 bs) (be_num (take 4 bs) ∷ acc)

reverse_onto : List ℕ → List ℕ → List ℕ
reverse_onto [] acc = acc
reverse_onto (w ∷ ws) acc = reverse_onto ws (w ∷ acc)

block : List ℕ → State → State
unfolding words extend rounds reverse_onto
block bs s =
    let t = rounds constants (reverse_onto (extend 48 (words 16 bs [])) []) s in
    record {
      a = word32 (s.a + t.a);
      b = word32 (s.b + t.b);
      c = word32 (s.c + t.c);
      d = word32 (s.d + t.d);
      e = word32 (s.e + t.e);
      f = word32 (s.f + t.f);
      g = word32 (s.g + t.g);
      h = word32 (s.h + t.h);
    }

blocks : ℕ → List ℕ → State → State
unfolding block
blocks zero bs s = s
blocks (suc k) bs s = blocks k (drop 64 bs) (block (take 64 bs) s)

-- A one bit, zeros up to 8 bytes before the end of a block, the length in bits.
padded : List ℕ → List ℕ
padded bs =
    bs ++ (0x80 ∷ replicate ((119 - length bs % 64) % 64) 0) ++ be_bytes 8 (length bs * 8 % 2 ^ 64)

-- `sha256.Sum256`
pub sum256 : List ℕ → List ℕ
unfolding padded blocks
sum256 bs =
    let s = blocks (length (padded bs) / 64) (padded bs) start in
    be_bytes 4 s.a
    ++ be_bytes 4 s.b
    ++ be_bytes 4 s.c
    ++ be_bytes 4 s.d
    ++ be_bytes 4 s.e
    ++ be_bytes 4 s.f
    ++ be_bytes 4 s.g
    ++ be_bytes 4 s.h

pub length-sum256 : (bs : List ℕ) → length (sum256 bs) ≡ 32
unfolding sum256
length-sum256 bs = refl

-- The digest of "abc", from the standard.
abc :
    sum256 (0x61 ∷ 0x62 ∷ 0x63 ∷ [])
    ≡ be_bytes 32 0xba7816bf8f01cfea414140de5dae2223b00361a396177a9cb410ff61f20015ad
unfolding sum256
abc = refl
