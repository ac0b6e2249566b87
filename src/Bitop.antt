-- ===== src/Bitop.antt =====
-- kernel/tstdlib/bitop.c: bit strings in memory, for a little-endian machine. An offset or a width
-- is a C `W`, an integer; a byte is a number below 256.
use mathlib.Core.Option
pub mod Bits
pub mod Scan
pub mod Search
pub mod Tests
use tkernel.Base.{
  ℕ, zero, suc, ◌+◌, ◌-◌, ◌*◌, ◌/◌, ◌%◌, ◌^◌, Bool, not, Option, none, some, ltb, ◌==◌,
  if◌then◌else◌, update, ℤ, pos, negsuc, bit_and, bit_or, bit_xor,
}
use tkernel.Str.{Mem}

-- `_BIT_SET_N`, `_BIT_SHIFT` and `_BIT_MSK_N`.
pub bit_set_n : ℕ → ℕ
bit_set_n n = 2 ^ (n % 8)

pub bit_shift : ℕ → ℕ
bit_shift n = n * 2 % 256

pub bit_msk_n : ℕ → ℕ
bit_msk_n n = 255 * 2 ^ (n % 8) % 256

unfoldable pub bitclr : Mem → ℕ → ℤ → Mem
unfolding bit_set_n
bitclr m base (negsuc n) = m
bitclr m base (pos offset) =
    let cp = base + offset / 8 in update m cp (bit_and (m cp) (bit_xor (bit_set_n offset) 255))

unfoldable pub bitset : Mem → ℕ → ℤ → Mem
unfolding bit_set_n
bitset m base (negsuc n) = m
bitset m base (pos offset) =
    let cp = base + offset / 8 in update m cp (bit_or (m cp) (bit_set_n offset))

-- The result is a C truth value.
pub bittest : Mem → ℕ → ℤ → ℕ
unfolding bit_set_n
bittest m base (negsuc n) = 0
bittest m base (pos offset) = bit_and (m (base + offset / 8)) (bit_set_n offset)

-- The two searches have one shape. They differ in the test for a byte that holds what is looked
-- for, `includes byte cpmask`, in the test of one bit, `stops byte mask`, and in the value to
-- which `cpmask` is reset.
module _ (includes stops : ℕ → ℕ → Bool) (reset : ℕ) where
  -- `while (1)`: the position at which the inner loop returns. A byte has eight masks; `none` says
  -- that the mask has been shifted out.
  pub scan_byte : ℕ → ℕ → ℕ → ℕ → Option ℕ
  unfolding bit_shift
  scan_byte zero b mask position = none
  scan_byte (suc f) b mask position =
      let rest = scan_byte f b (bit_shift mask) (position + 1) in
      if stops b mask then some position else rest

  -- `if (position < width) return position; else return -1;`
  pub within_width : ℕ → ℕ → ℤ
  within_width width position = if ltb position width then pos position else negsuc 0

  pub search_loop : ℕ → Mem → ℕ → ℕ → ℕ → ℕ → ℕ → ℕ → Option ℤ
  unfolding bit_set_n
  search_loop zero m cp mask cpmask position offset width = none
  search_loop (suc f) m cp mask cpmask position offset width =
      let later = search_loop f m (cp + 1) mask cpmask (position + 8) offset width in
      let second = search_loop f m (cp + 1) (bit_set_n 0) reset (8 - offset % 8) offset width in
      let hit = Option.map (within_width width) (scan_byte 8 (m cp) mask position) in
      if ltb position width
      then if includes (m cp) cpmask then hit else if position == 0 then second else later
      else some (negsuc 0)

pub includes1 : ℕ → ℕ → Bool
includes1 b cpmask = not (bit_and b cpmask == 0)

pub stops1 : ℕ → ℕ → Bool
stops1 b mask = not (bit_and b mask == 0)

pub includes0 : ℕ → ℕ → Bool
includes0 b cpmask = not (bit_or b cpmask == 255)

pub stops0 : ℕ → ℕ → Bool
stops0 b mask = bit_and b mask == 0

-- The first number is the fuel of the outer loop.
unfoldable pub bitsearch1 : ℕ → Mem → ℕ → ℤ → ℤ → Option ℤ
unfolding search_loop scan_byte within_width includes1 stops1 bit_set_n bit_msk_n
bitsearch1 f m base (negsuc n) width = some (negsuc 0)
bitsearch1 f m base (pos offset) (negsuc n) = some (negsuc 0)
bitsearch1 f m base (pos offset) (pos width) =
    search_loop includes1 stops1 (bit_msk_n 0) f m (base + offset / 8) (bit_set_n offset)
      (bit_msk_n offset) 0 offset width

unfoldable pub bitsearch0 : ℕ → Mem → ℕ → ℤ → ℤ → Option ℤ
unfolding search_loop scan_byte within_width includes0 stops0 bit_set_n bit_msk_n
bitsearch0 f m base (negsuc n) width = some (negsuc 0)
bitsearch0 f m base (pos offset) (negsuc n) = some (negsuc 0)
bitsearch0 f m base (pos offset) (pos width) =
    search_loop includes0 stops0 (bit_xor (bit_msk_n 0) 255) f m (base + offset / 8)
      (bit_set_n offset) (bit_xor (bit_msk_n offset) 255) 0 offset width
