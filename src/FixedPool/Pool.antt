-- ===== src/FixedPool/Pool.antt =====
-- kernel/tkernel/smp_src/mempfix.c: a block that is given was free, and is then in use.
use tkernel.Base.{
  ℕ, ◌+◌, ◌-◌, ◌*◌, ◌^◌, ◌≤◌, ◌<◌, ◌≡◌, ◌⊎◌, inl, inr, refl, sym, ap, subst, ◌∙◌, true, false, List,
  [], ◌∷◌, arith, ◌==◌,
}
use tkernel.Str.{Mem, store_word}
use tkernel.Kernel.{Mpfcb}
use tkernel.Kernel.Lists.{NotIn}
use tkernel.MessageBuffer.Buffer.{load_word}
use tkernel.MessageBuffer.Ring.{Apart, load_word-store_word}
use tkernel.FixedPool.{take_block, free_block}
use tkernel.FixedPool.Blocks.{addr, Chain, Below, IsPool, mul_step, in_pool, Chain-far, Chain-new}

-- What `take_block` leaves: the block that it gives was the first of the free list, or the first
-- that was never used, its address is in the word at `p_blf`, and the others are free as before.
pub record Taken (m : Mem) (cb : Mpfcb) (l : List ℕ) (u p_blf : ℕ) : Type 0 where
  pub block : ℕ
  pub rest : List ℕ
  pub limit : ℕ
  pub was_free :
      ((l ≡ block ∷ rest) × (limit ≡ u)) ⊎ ((l ≡ []) × (rest ≡ []) × (block ≡ u) × (limit ≡ u + 1))
  pub inside : block < cb.mpfcnt
  pub address : load_word (take_block m cb p_blf).0 p_blf ≡ addr cb block
  pub pool : IsPool (take_block m cb p_blf).0 (take_block m cb p_blf).1 rest limit
  pub no_more_free : NotIn block rest × (block < limit)

Below-le : (u v : ℕ) (l : List ℕ) → u ≤ v → Below u l → Below v l
Below-le u v [] h b = tt
Below-le u v (j ∷ l) h b = (omega (arith, b.0), Below-le u v l h b.1)

addr_fits :
    (cb : Mpfcb) (j : ℕ)
    → j < cb.mpfcnt
    → 4 ≤ cb.blfsz
    → cb.mempool + cb.mpfcnt * cb.blfsz ≤ 2 ^ 32
    → addr cb j < 2 ^ 32
addr_fits cb j lt h le = ground (arith, mul_step j cb.mpfcnt cb.blfsz lt)

addr_up : (cb : Mpfcb) (u : ℕ) → addr cb u + cb.blfsz ≡ addr cb (u + 1)
addr_up cb u = grind arith

listed :
    (m : Mem) (cb : Mpfcb) (j : ℕ) (l : List ℕ) (u p_blf : ℕ)
    → IsPool m cb (j ∷ l) u
    → 0 < cb.frbcnt
    → Apart p_blf 4 cb.mempool (cb.mpfcnt * cb.blfsz)
    → Taken m cb (j ∷ l) u p_blf
unfolding take_block Chain
listed m cb j l u p_blf c some_free far =
    let here = c.chain.0 in
    let up : (cb.freelist == 0) ≡ false = ground (arith, here, c.not_null) in
    let lt : j < cb.mpfcnt = omega (arith, c.below.0, c.used_up) in
    let apart : (i : ℕ) → i < u → Apart (addr cb i) 4 p_blf 4 =
      λ i li. in_pool cb i p_blf (omega (arith, li, c.used_up)) c.whole_words far in
    record {
      block = j;
      rest = l;
      limit = u;
      was_free = inl (refl, refl);
      inside = lt;
      address = rw up (
          load_word-store_word m p_blf cb.freelist
            (rw here (addr_fits cb j lt c.whole_words c.in_memory))
          ∙ here);
      pool = rw up (record {
        whole_words = c.whole_words;
        not_null = c.not_null;
        in_memory = c.in_memory;
        used_up = c.used_up;
        unused_at = c.unused_at;
        count = omega (arith, c.count, some_free);
        chain =
            Chain-far m cb
              (record cb { freelist = load_word m cb.freelist; frbcnt = cb.frbcnt - 1 }) p_blf
              cb.freelist u l (load_word m cb.freelist) refl apart c.below.1 c.chain.1;
        below = c.below.1;
        distinct = c.distinct.1;
      });
      no_more_free = (c.distinct.0, c.below.0);
    }

fresh :
    (m : Mem) (cb : Mpfcb) (u p_blf : ℕ) → IsPool m cb [] u → 0 < cb.frbcnt → Taken m cb [] u p_blf
unfolding take_block Chain
fresh m cb u p_blf c some_free =
    let up : (cb.freelist == 0) ≡ true = ground (arith, c.chain) in
    let lt : u < cb.mpfcnt = omega (arith, c.count, some_free) in
    record {
      block = u;
      rest = [];
      limit = u + 1;
      was_free = inr (refl, refl, refl, refl);
      inside = lt;
      address = rw up (
          load_word-store_word m p_blf cb.unused
            (rw c.unused_at (addr_fits cb u lt c.whole_words c.in_memory))
          ∙ c.unused_at);
      pool = rw up (record {
        whole_words = c.whole_words;
        not_null = c.not_null;
        in_memory = c.in_memory;
        used_up = omega arith;
        unused_at = ap (λ a. a + cb.blfsz) c.unused_at ∙ addr_up cb u;
        count = omega (arith, c.count, some_free);
        chain = c.chain;
        below = tt;
        distinct = tt;
      });
      no_more_free = (tt, omega arith);
    }

-- On a pool whose free blocks are those of `l` and those from `u` on, with a free block and the word
-- at `p_blf` apart from the pool: `_tk_get_mpf` gives a block that was free, the first
-- of the free list or, if that is empty, the first that was never used; its address is in that
-- word, it is no longer free, and the other blocks are free or in use as before.
pub take_block-Taken :
    (m : Mem) (cb : Mpfcb) (l : List ℕ) (u p_blf : ℕ)
    → IsPool m cb l u
    → 0 < cb.frbcnt
    → Apart p_blf 4 cb.mempool (cb.mpfcnt * cb.blfsz)
    → Taken m cb l u p_blf
take_block-Taken m cb [] u p_blf c some_free far = fresh m cb u p_blf c some_free
take_block-Taken m cb (j ∷ l) u p_blf c some_free far = listed m cb j l u p_blf c some_free far

freelist_fits : (m : Mem) (cb : Mpfcb) (l : List ℕ) (u : ℕ) → IsPool m cb l u → cb.freelist < 2 ^ 32
unfolding Chain
freelist_fits m cb [] u c = omega (arith, c.chain)
freelist_fits m cb (i ∷ l) u c =
    rw (c.chain.0) (addr_fits cb i (omega (arith, c.below.0, c.used_up)) c.whole_words c.in_memory)

-- On such a pool, for a block `j` that is in use: `_tk_rel_mpf` without a waiting task puts it first
-- in the free list, and the other blocks are free or in use as before.
pub free_block-IsPool :
    (m : Mem) (cb : Mpfcb) (l : List ℕ) (u j : ℕ)
    → IsPool m cb l u
    → j < u
    → NotIn j l
    → IsPool (free_block m cb (addr cb j)).0 (free_block m cb (addr cb j)).1 (j ∷ l) u
unfolding free_block Chain
free_block-IsPool m cb l u j c lt n =
    let fits = freelist_fits m cb l u c in
    let cb' : Mpfcb = record cb { freelist = addr cb j; frbcnt = cb.frbcnt + 1 } in
    record {
      whole_words = c.whole_words;
      not_null = c.not_null;
      in_memory = c.in_memory;
      used_up = c.used_up;
      unused_at = c.unused_at;
      count = omega (arith, c.count);
      chain = (
        refl,
        subst (λ x. Chain (store_word m (addr cb j) cb.freelist) cb' x l)
            (sym (load_word-store_word m (addr cb j) cb.freelist fits))
            (Chain-new m cb cb' j cb.freelist l cb.freelist refl c.whole_words n c.chain),
      );
      below = (lt, c.below);
      distinct = (n, c.distinct);
    }
