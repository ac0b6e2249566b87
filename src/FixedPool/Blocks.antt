-- ===== src/FixedPool/Blocks.antt =====
-- kernel/tkernel/smp_src/mempfix.c: which blocks of a pool are free.
use tkernel.Base.{
  ℕ, ◌+◌, ◌*◌, ◌^◌, ◌≤◌, ◌<◌, ◌≡◌, ◌≢◌, sym, ap, subst, ◌∙◌, List, [], ◌∷◌, arith, length,
}
use tkernel.Str.{Mem, store_word}
use tkernel.Kernel.{Mpfcb}
use tkernel.Kernel.Lists.{NotIn, Distinct}
use tkernel.MessageBuffer.Buffer.{load_word}
use tkernel.MessageBuffer.Ring.{Apart}

-- The address of a block.
abbrev pub addr : Mpfcb → ℕ → ℕ
addr cb j = cb.mempool + j * cb.blfsz

-- The free list from the address `a` on holds the blocks `l`.
unfoldable pub Chain : Mem → Mpfcb → ℕ → List ℕ → Type 0
Chain m cb a [] = a ≡ 0
Chain m cb a (j ∷ l) = (a ≡ addr cb j) × Chain m cb (load_word m a) l

abbrev pub Below : ℕ → List ℕ → Type 0
Below u [] = Unit {0}
Below u (j ∷ l) = (j < u) × Below u l

-- The free blocks of the pool are those of `l`, in the order of the free list, and those from `u` on.
pub record IsPool (m : Mem) (cb : Mpfcb) (l : List ℕ) (u : ℕ) : Type 0 where
  pub whole_words : 4 ≤ cb.blfsz
  pub not_null : 0 < cb.mempool
  pub in_memory : cb.mempool + cb.mpfcnt * cb.blfsz ≤ 2 ^ 32
  pub used_up : u ≤ cb.mpfcnt
  pub unused_at : cb.unused ≡ addr cb u
  pub count : cb.frbcnt + u ≡ length l + cb.mpfcnt
  pub chain : Chain m cb cb.freelist l
  pub below : Below u l
  pub distinct : Distinct l

pub mul_step : (i j b : ℕ) → i < j → i * b + b ≤ j * b
mul_step i j b h = grind arith

pub load_word-Apart :
    (m : Mem) (p v a : ℕ) → Apart a 4 p 4 → load_word (store_word m p v) a ≡ load_word m a
unfolding store_word
load_word-Apart m p v a h = ground arith

blocks-Apart : (cb : Mpfcb) (i j : ℕ) → i ≢ j → 4 ≤ cb.blfsz → Apart (addr cb i) 4 (addr cb j) 4
blocks-Apart cb i j ne h = ground (arith, mul_step i j cb.blfsz, mul_step j i cb.blfsz)

pub in_pool :
    (cb : Mpfcb) (j p : ℕ)
    → j < cb.mpfcnt
    → 4 ≤ cb.blfsz
    → Apart p 4 cb.mempool (cb.mpfcnt * cb.blfsz)
    → Apart (addr cb j) 4 p 4
in_pool cb j p lt h far = ground (arith, mul_step j cb.mpfcnt cb.blfsz lt)

-- A store outside the free blocks leaves the free list.
pub Chain-far :
    (m : Mem) (cb cb' : Mpfcb) (p v u : ℕ) (l : List ℕ) (a : ℕ)
    → addr cb' ≡ addr cb
    → ((j : ℕ) → j < u → Apart (addr cb j) 4 p 4)
    → Below u l
    → Chain m cb a l
    → Chain (store_word m p v) cb' a l
unfolding Chain
Chain-far m cb cb' p v u [] a same far b c = c
Chain-far m cb cb' p v u (j ∷ l) a same far b c = (
  c.0 ∙ sym (ap (λ f. f j) same),
  subst (λ x. Chain (store_word m p v) cb' x l)
      (sym (load_word-Apart m p v a (subst (λ x. Apart x 4 p 4) (sym c.0) (far j b.0))))
      (Chain-far m cb cb' p v u l (load_word m a) same far b.1 c.1),
)

pub Chain-new :
    (m : Mem) (cb cb' : Mpfcb) (i v : ℕ) (l : List ℕ) (a : ℕ)
    → addr cb' ≡ addr cb
    → 4 ≤ cb.blfsz
    → NotIn i l
    → Chain m cb a l
    → Chain (store_word m (addr cb i) v) cb' a l
unfolding Chain
Chain-new m cb cb' i v [] a same h n c = c
Chain-new m cb cb' i v (j ∷ l) a same h n c = (
  c.0 ∙ sym (ap (λ f. f j) same),
  subst (λ x. Chain (store_word m (addr cb i) v) cb' x l)
      (sym (
        load_word-Apart m (addr cb i) v a
          (subst (λ x. Apart x 4 (addr cb i) 4) (sym c.0) (blocks-Apart cb j i n.0 h))))
      (Chain-new m cb cb' i v l (load_word m a) same h n.1 c.1),
)
