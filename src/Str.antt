-- ===== src/Str.antt =====
-- lib/libstr/src/string.c: the memory and string functions that the kernel links when the C library
-- is not used. A memory is a function from addresses to bytes; an address is a plain number, since
-- C gives pointer arithmetic that leaves the address space no meaning. A loop that counts a `size_t`
-- down is a recursion on the count; one that looks for a terminating NUL takes fuel, and `none`
-- says that the fuel ran out.
pub mod Strings
pub mod Fill
pub mod Copy
pub mod Compare
pub mod Tests
use tkernel.Base.{
  ℕ, zero, suc, ◌+◌, ◌-◌, ◌*◌, ◌/◌, ◌%◌, ◌^◌, Bool, true, false, not, ◌&&◌, ◌||◌, Option, none,
  some, ltb, leb, ◌==◌, if◌then◌else◌, update, ℤ, pos, sub_ℕ, bit_or,
}

abbrev pub Mem : Type 0
Mem = ℕ → ℕ

-- `while (n-- > 0) *cp++ = cval;`
pub fill_bytes : Mem → ℕ → ℕ → ℕ → Mem
fill_bytes m cp cval zero = m
fill_bytes m cp cval (suc n) = fill_bytes (update m cp cval) (cp + 1) cval n

-- `while ((int)cp % 4) { --n; *cp++ = cval; }`, with what it leaves of `cp` and `n`. It is run at
-- n ≥ 8 only, so the case of no bytes left is not reached.
pub fill_align : Mem → ℕ → ℕ → ℕ → Mem × ℕ × ℕ
fill_align m cp cval zero = (m, cp, 0)
fill_align m cp cval (suc n) =
    let rest = fill_align (update m cp cval) (cp + 1) cval n in
    if cp % 4 == 0 then (m, cp, suc n) else rest

-- A 32-bit store, the byte of the lowest address first.
unfoldable pub store_word : Mem → ℕ → ℕ → Mem
store_word m lp v =
    update
      (update (update (update m lp (v % 256)) (lp + 1) (v / 256 % 256)) (lp + 2) (v / 65536 % 256))
      (lp + 3) (v / 16777216 % 256)

-- `while (n >= 4) { *lp++ = lval; n -= 4; }`
pub fill_words : Mem → ℕ → ℕ → ℕ → Mem × ℕ × ℕ
fill_words m lp lval (suc (suc (suc (suc n)))) = fill_words (store_word m lp lval) (lp + 4) lval n
fill_words m lp lval n = (m, lp, n)

-- The byte repeated four times, as `memset` joins it.
pub splat : ℕ → ℕ
splat cval =
    bit_or (bit_or (bit_or cval (cval * 2 ^ 8 % 2 ^ 32)) (cval * 2 ^ 16 % 2 ^ 32))
      (cval * 2 ^ 24 % 2 ^ 32)

pub fill_long : Mem → ℕ → ℕ → ℕ → Mem
unfolding fill_align fill_words fill_bytes splat
fill_long m s cval n =
    let (m1, cp, n1) = fill_align m s cval n in
    let (m2, lp, n2) = fill_words m1 cp (splat cval) n1 in fill_bytes m2 lp cval n2

-- `c` is the bit pattern of the `int` argument.
unfoldable pub memset : Mem → ℕ → ℕ → ℕ → Mem
unfolding fill_bytes fill_long
memset m s c n = if ltb n 8 then fill_bytes m s (c % 256) n else fill_long m s (c % 256) n

pub bzero : Mem → ℕ → ℕ → Mem
unfolding memset
bzero m s n = memset m s 0 n

unfoldable pub memcmp : Mem → ℕ → ℕ → ℕ → ℤ
memcmp m s1 s2 zero = pos 0
memcmp m s1 s2 (suc n) =
    let rest = memcmp m (s1 + 1) (s2 + 1) n in if m s1 == m s2 then rest else sub_ℕ (m s1) (m s2)

unfoldable pub memcpy : Mem → ℕ → ℕ → ℕ → Mem
memcpy m dst src zero = m
memcpy m dst src (suc n) = memcpy (update m dst (m src)) (dst + 1) (src + 1) n

-- The loop of `memmove` from the end: `cdst` and `csrc` have been moved to the ends of the areas.
pub copy_down : Mem → ℕ → ℕ → ℕ → Mem
copy_down m dst src zero = m
copy_down m dst src (suc n) = copy_down (update m (dst + n) (m (src + n))) dst src n

unfoldable pub memmove : Mem → ℕ → ℕ → ℕ → Mem
unfolding memcpy copy_down
memmove m dst src n = if ltb src dst then copy_down m dst src n else memcpy m dst src n

-- One more, for the byte passed over.
abbrev pub plus_one : Option ℕ → Option ℕ
plus_one none = none
plus_one (some k) = some (k + 1)

unfoldable pub strlen : ℕ → Mem → ℕ → Option ℕ
strlen zero m s = none
strlen (suc f) m s = let rest = strlen f m (s + 1) in if m s == 0 then some 0 else plus_one rest

unfoldable pub strcmp : ℕ → Mem → ℕ → ℕ → Option ℤ
strcmp zero m s1 s2 = none
strcmp (suc f) m s1 s2 =
    let rest = strcmp f m (s1 + 1) (s2 + 1) in
    if m s1 == 0
    then some (sub_ℕ (m s1) (m s2))
    else if m s1 == m s2
    then rest
    else some (sub_ℕ (m s1) (m s2))

-- At `n` 0 both ways out return 0: the `result` of the last round, and the test after the loop.
unfoldable pub strncmp : Mem → ℕ → ℕ → ℕ → ℤ
strncmp m s1 s2 zero = pos 0
strncmp m s1 s2 (suc n) =
    let rest = strncmp m (s1 + 1) (s2 + 1) n in
    if m s1 == 0 then sub_ℕ (m s1) (m s2) else if m s1 == m s2 then rest else sub_ℕ (m s1) (m s2)

-- The test `while (*src++)` reads the memory after the byte has been copied.
unfoldable pub strcpy : ℕ → Mem → ℕ → ℕ → Option Mem
strcpy zero m dst src = none
strcpy (suc f) m dst src =
    let m1 = update m dst (m src) in
    let rest = strcpy f m1 (dst + 1) (src + 1) in if m1 src == 0 then some m1 else rest

unfoldable pub strncpy : Mem → ℕ → ℕ → ℕ → Mem
unfolding fill_bytes
strncpy m dst src zero = m
strncpy m dst src (suc n) =
    let m1 = update m dst (m src) in
    let rest = strncpy m1 (dst + 1) (src + 1) n in
    if m1 src == 0 then fill_bytes m1 (dst + 1) 0 n else rest

-- `while (*cp) ++cp;`: the address of the NUL.
pub find_end : ℕ → Mem → ℕ → Option ℕ
find_end zero m cp = none
find_end (suc f) m cp = let rest = find_end f m (cp + 1) in if m cp == 0 then some cp else rest

-- `while (*src) *cp++ = *src++; *cp = 0;`
pub append_from : ℕ → Mem → ℕ → ℕ → Option Mem
append_from zero m cp src = none
append_from (suc f) m cp src =
    let rest = append_from f (update m cp (m src)) (cp + 1) (src + 1) in
    if m src == 0 then some (update m cp 0) else rest

unfoldable pub strcat : ℕ → Mem → ℕ → ℕ → Option Mem
unfolding find_end append_from
strcat f m dst src = elim (find_end f m dst) [ none ↦ none | some cp ↦ append_from f m cp src ]

-- `while (*src) { if (n-- <= 0) break; *cp++ = *src++; } *cp = 0;`
pub append_most : Mem → ℕ → ℕ → ℕ → Mem
append_most m cp src zero = update m cp 0
append_most m cp src (suc n) =
    let rest = append_most (update m cp (m src)) (cp + 1) (src + 1) n in
    if m src == 0 then update m cp 0 else rest

unfoldable pub strncat : ℕ → Mem → ℕ → ℕ → ℕ → Option Mem
unfolding find_end append_most
strncat f m dst src n = elim (find_end f m dst) [
  | none ↦ none
  | some cp ↦ some (append_most m cp src n)
]
