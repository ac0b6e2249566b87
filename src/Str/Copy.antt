-- ===== src/Str/Copy.antt =====
-- What the copying functions of lib/libstr/src/string.c leave in memory.
use tkernel.Base.{ℕ, zero, suc, ◌+◌, ◌-◌, ◌≤◌, ◌≡◌, ◌⊎◌, arith, if◌then◌else◌, update, ap}
use tkernel.Str.{Mem, memcpy, copy_down, memmove}
use tkernel.Str.Fill.{inside}

-- The copy from the low end is right if the areas do not overlap, or `dst` is not above `src`.
pub memcpy_lem :
    (m : Mem) (dst src n a : ℕ)
    → (dst ≤ src) ⊎ (src + n ≤ dst)
    → memcpy m dst src n a ≡ (if inside dst n a then m (src + (a - dst)) else m a)
unfolding memcpy
memcpy_lem m dst src zero a h = ground arith
memcpy_lem m dst src (suc n) a h = ground (
  arith,
  memcpy_lem (update m dst (m src)) (dst + 1) (src + 1) n a,
  λ (e : a ≡ dst). ap (λ x. m (src + (x - dst))) e,
)

copy_down_lem :
    (m : Mem) (dst src n a : ℕ)
    → src ≤ dst
    → copy_down m dst src n a ≡ (if inside dst n a then m (src + (a - dst)) else m a)
unfolding copy_down
copy_down_lem m dst src zero a h = ground arith
copy_down_lem m dst src (suc n) a h =
    ground (arith, copy_down_lem (update m (dst + n) (m (src + n))) dst src n a)

-- `memmove` copies the `n` bytes as they were, however the areas overlap, and changes no other.
pub memmove_lem :
    (m : Mem) (dst src n a : ℕ)
    → memmove m dst src n a ≡ (if inside dst n a then m (src + (a - dst)) else m a)
unfolding memmove
memmove_lem m dst src n a = ground (arith, copy_down_lem m dst src n a, memcpy_lem m dst src n a)
