-- ===== src/MessageBuffer/Ring.antt =====
-- kernel/tkernel/smp_src/messagebuf.c: the buffer as a ring, seen from its first message on.
use tkernel.Base.{
  ℕ, ◌+◌, ◌-◌, ◌%◌, ◌^◌, ◌≤◌, ◌<◌, ◌≡◌, ◌⊎◌, inl, inr, arith, if◌then◌else◌, ltb, Bool-cases,
  ltb→lt,
}
use tkernel.Str.{Mem, memcpy, store_word}
use tkernel.Str.Fill.{inside}
use tkernel.Str.Copy.{memcpy_lem}
use tkernel.MessageBuffer.Buffer.{roundsz, load_word, skip_bytes, copy_in, copy_out}

-- A position in the ring, for positions below twice its size.
abbrev pub wrap : ℕ → ℕ → ℕ
wrap s x = if ltb x s then x else x - s

-- Two areas of memory have no address in common.
abbrev pub Apart : ℕ → ℕ → ℕ → ℕ → Type 0
Apart a m b n = (a + m ≤ b) ⊎ (b + n ≤ a)

-- Where the message ends.
pub skip_bytes-wrap :
    (s p n : ℕ) → s % 4 ≡ 0 → p % 4 ≡ 0 → p < s → n ≤ s → skip_bytes s p n ≡ wrap s (p + roundsz n)
unfolding skip_bytes
skip_bytes-wrap s p n hs hp lt le = ground arith

-- The two copies of a message that goes over the end of the buffer.
copy_twice :
    (m : Mem) (b s p src n a : ℕ)
    → Apart src n b s
    → p < s
    → s - p < n
    → n ≤ s
    → memcpy (memcpy m (b + p) src (s - p)) b (src + (s - p)) (n - (s - p)) a ≡ (
        if inside b (n - (s - p)) a
        then m (src + ((s - p) + (a - b)))
        else if inside (b + p) (s - p) a
        then m (src + (a - (b + p)))
        else m a)
copy_twice m b s p src n a far lt split le = ground (
  arith,
  memcpy_lem m (b + p) src (s - p) a,
  memcpy_lem (memcpy m (b + p) src (s - p)) b (src + (s - p)) (n - (s - p)) a,
  memcpy_lem m (b + p) src (s - p) (src + (s - p) + (a - b)),
)

-- The ring after bytes have been copied into it, and the memory around it.
pub copy_in_ring :
    (m : Mem) (b s p src n j : ℕ)
    → Apart src n b s
    → p < s
    → n ≤ s
    → j < s
    → copy_in m b s p src n (b + wrap s (p + j))
      ≡ (if ltb j n then m (src + j) else m (b + wrap s (p + j)))
unfolding copy_in
copy_in_ring m b s p src n j far lt le lj = elim (Bool-cases (ltb (s - p) n)) [
  | inl e ↦ ground (arith, copy_twice m b s p src n (b + wrap s (p + j)) far lt (ltb→lt _ _ e) le)
  | inr e ↦ ground (arith, memcpy_lem m (b + p) src n (b + wrap s (p + j)))
]

pub copy_in_outside :
    (m : Mem) (b s p src n a : ℕ)
    → Apart src n b s
    → p < s
    → n ≤ s
    → (a < b) ⊎ (b + s ≤ a)
    → copy_in m b s p src n a ≡ m a
unfolding copy_in
copy_in_outside m b s p src n a far lt le out = ground (
  arith,
  memcpy_lem m (b + p) src n a,
  memcpy_lem m (b + p) src (s - p) a,
  memcpy_lem (memcpy m (b + p) src (s - p)) b (src + (s - p)) (n - (s - p)) a,
)

-- What has been copied out of the ring, and the memory around the copy.
pub copy_out_at :
    (m : Mem) (b s p out n i : ℕ)
    → Apart out n b s
    → p < s
    → n ≤ s
    → i < n
    → copy_out m b s p out n (out + i) ≡ m (b + wrap s (p + i))
unfolding copy_out
copy_out_at m b s p out n i far lt le li = ground (
  arith,
  memcpy_lem m out (b + p) n (out + i),
  memcpy_lem m out (b + p) (s - p) (out + i),
  memcpy_lem (memcpy m out (b + p) (s - p)) (out + (s - p)) b (n - (s - p)) (out + i),
  memcpy_lem m out (b + p) (s - p) (b + (i - (s - p))),
)

pub copy_out_outside :
    (m : Mem) (b s p out n a : ℕ)
    → Apart out n b s
    → p < s
    → n ≤ s
    → (a < out) ⊎ (out + n ≤ a)
    → copy_out m b s p out n a ≡ m a
unfolding copy_out
copy_out_outside m b s p out n a far lt le apart = ground (
  arith,
  memcpy_lem m out (b + p) n a,
  memcpy_lem m out (b + p) (s - p) a,
  memcpy_lem (memcpy m out (b + p) (s - p)) (out + (s - p)) b (n - (s - p)) a,
)

-- The size word.
pub load_word-store_word : (m : Mem) (a v : ℕ) → v < 2 ^ 32 → load_word (store_word m a v) a ≡ v
unfolding store_word
load_word-store_word m a v h = ground arith

pub store_word_outside : (m : Mem) (p v a : ℕ) → (a < p) ⊎ (p + 4 ≤ a) → store_word m p v a ≡ m a
unfolding store_word
store_word_outside m p v a h = ground arith
