-- ===== src/Bitop/Bits.antt =====
-- Setting, clearing and testing one bit of a bit string.
use tkernel.Base.{
  ℕ, ◌+◌, ◌/◌, ◌%◌, ◌^◌, ◌<◌, ◌≡◌, refl, ap, Bool, true, false, ◌&&◌, ◌==◌, arith, if◌then◌else◌,
  update, ltb→lt, Bool-cases, inl, inr, ◌↔◌, not, sym, ◌∙◌, pos, bit_and, bit_or, bit_xor,
  all_below, all_below_sound, eq_of_==, ltb,
}
use tkernel.Str.{Mem}
use tkernel.Bitop.{bitclr, bitset, bittest}

-- Bit `i` of a byte, and bit `i` of the bit string at `base`.
abbrev pub byte_bit : ℕ → ℕ → ℕ
byte_bit b i = b / 2 ^ i % 2

abbrev pub bit_at : Mem → ℕ → ℕ → ℕ
bit_at m base i = byte_bit (m (base + i / 8)) (i % 8)

abbrev pub IsBytes : Mem → Type 0
IsBytes m = (a : ℕ) → m a < 256

-- A test of every byte and two of its bits.
unfoldable pub every_byte : (ℕ → ℕ → Bool) → Bool
unfolding all_below
every_byte p = all_below 256 λ b. all_below 8 λ k. p b k

pub every_byte_sound :
    (p : ℕ → ℕ → Bool) (b k : ℕ) → every_byte p ≡ true → b < 256 → k < 8 → p b k ≡ true
unfolding every_byte
every_byte_sound p b k h lb lk =
    all_below_sound 8 (p b) k (all_below_sound 256 (λ c. all_below 8 (p c)) b h lb) lk

-- Byte `c` is below 256, and is byte `b` with bit `k` set to `v`.
bit_ok : ℕ → ℕ → ℕ → ℕ → ℕ → Bool
bit_ok v c b k i = byte_bit c i == (if k == i then v else byte_bit b i)

byte_ok : ℕ → ℕ → ℕ → ℕ → Bool
unfolding all_below bit_ok
byte_ok v c b k = ltb c 256 && all_below 8 (bit_ok v c b k)

byte_ok_sound :
    (v c b k i : ℕ)
    → byte_ok v c b k ≡ true
    → i < 8
    → (c < 256) × (byte_bit c i ≡ (if k == i then v else byte_bit b i))
unfolding byte_ok
byte_ok_sound v c b k i h li = elim (Bool-cases (ltb c 256)) [
  | inl lt ↦ (ltb→lt _ _ lt, eq_of_== _ _ (all_below_sound 8 (bit_ok v c b k) i (ground arith) li))
  | inr ge ↦ ground arith
]

set_table : every_byte (λ b k. byte_ok 1 (bit_or b (2 ^ k)) b k) ≡ true
unfolding every_byte byte_ok
set_table = refl

clear_table : every_byte (λ b k. byte_ok 0 (bit_and b (bit_xor (2 ^ k) 255)) b k) ≡ true
unfolding every_byte byte_ok
clear_table = refl

-- Two tests agree.
abbrev pub agree : Bool → Bool → Bool
agree true c = c
agree false c = not c

pub agree→eq : (a c : Bool) → agree a c ≡ true → a ≡ c
agree→eq a c h = ground arith

test_table : every_byte (λ b k. agree (bit_and b (2 ^ k) == 0) (byte_bit b k == 0)) ≡ true
unfolding every_byte
test_table = refl

set_byte :
    (b k i : ℕ)
    → b < 256
    → k < 8
    → i < 8
    → (bit_or b (2 ^ k) < 256)
      × (byte_bit (bit_or b (2 ^ k)) i ≡ (if k == i then 1 else byte_bit b i))
set_byte b k i lb lk li =
    byte_ok_sound 1 _ b k i
      (every_byte_sound (λ c j. byte_ok 1 (bit_or c (2 ^ j)) c j) b k set_table lb lk) li

clear_byte :
    (b k i : ℕ)
    → b < 256
    → k < 8
    → i < 8
    → (bit_and b (bit_xor (2 ^ k) 255) < 256)
      × (byte_bit (bit_and b (bit_xor (2 ^ k) 255)) i ≡ (if k == i then 0 else byte_bit b i))
clear_byte b k i lb lk li =
    byte_ok_sound 0 _ b k i
      (every_byte_sound (λ c j. byte_ok 0 (bit_and c (bit_xor (2 ^ j) 255)) c j) b k clear_table lb
        lk)
      li

pub test_byte : (b k : ℕ) → b < 256 → k < 8 → (bit_and b (2 ^ k) == 0) ≡ (byte_bit b k == 0)
test_byte b k lb lk = agree→eq _ _ (
    every_byte_sound (λ c j. agree (bit_and c (2 ^ j) == 0) (byte_bit c j == 0)) b k test_table lb
      lk)

-- A write of a byte that changes one of its bits changes one bit of the string.
write_bit :
    (m : Mem) (base offset v c i : ℕ)
    → byte_bit c (i % 8)
      ≡ (if offset % 8 == i % 8 then v else byte_bit (m (base + offset / 8)) (i % 8))
    → bit_at (update m (base + offset / 8) c) base i ≡ (if offset == i then v else bit_at m base i)
write_bit m base offset v c i h = elim (Bool-cases (base + offset / 8 == base + i / 8)) [
  | inl e ↦
      rw (e, h, eq_of_== _ _ e)
        (rw (let same : (offset % 8 == i % 8) ≡ (offset == i) = ground arith in same) refl)
  | inr e ↦ rw (e, let other : (offset == i) ≡ false = ground arith in other) refl
]

-- In a memory of bytes, at an offset that is not negative, `tstdlib_bitset` sets the
-- bit at `offset` and changes no other, and leaves bytes in memory.
bitset_lem :
    (m : Mem) (base offset i : ℕ)
    → IsBytes m
    → (bit_at (bitset m base (pos offset)) base i ≡ (if offset == i then 1 else bit_at m base i))
      × (bitset m base (pos offset) i < 256)
unfolding bitset
bitset_lem m base offset i h =
    let b =
      set_byte (m (base + offset / 8)) (offset % 8) (i % 8) (h _) (omega arith) (omega arith) in
    (write_bit m base offset 1 _ i b.1, ground (arith, h i, b.0))

-- In a memory of bytes, at an offset that is not negative, `tstdlib_bitclr` clears the
-- bit at `offset` and changes no other, and leaves bytes in memory.
bitclr_lem :
    (m : Mem) (base offset i : ℕ)
    → IsBytes m
    → (bit_at (bitclr m base (pos offset)) base i ≡ (if offset == i then 0 else bit_at m base i))
      × (bitclr m base (pos offset) i < 256)
unfolding bitclr
bitclr_lem m base offset i h =
    let b =
      clear_byte (m (base + offset / 8)) (offset % 8) (i % 8) (h _) (omega arith) (omega arith) in
    (write_bit m base offset 0 _ i b.1, ground (arith, h i, b.0))

-- In a memory of bytes, at an offset that is not negative, `tstdlib_bittest` is false exactly if the bit at `offset` is clear.
bittest_lem :
    (m : Mem) (base offset : ℕ)
    → IsBytes m
    → (bittest m base (pos offset) ≡ 0) ↔ (bit_at m base offset ≡ 0)
unfolding bittest
bittest_lem m base offset h =
    let e = test_byte (m (base + offset / 8)) (offset % 8) (h _) (omega arith) in
    (λ z. eq_of_== _ _ (sym e ∙ ap (λ x. x == 0) z), λ z. eq_of_== _ _ (e ∙ ap (λ x. x == 0) z))
