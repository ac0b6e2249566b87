-- ===== src/FixedPool/Tests.antt =====
-- The theorems on fixed memory pools at a concrete pool.
use tkernel.Base.{◌%◌, refl, arith, [], ◌∷◌, inl}
use tkernel.Str.{Mem}
use tkernel.Kernel.{Mpfcb}
use tkernel.Sample.{sample}
use tkernel.FixedPool.{free_block}
use tkernel.FixedPool.Blocks.{IsPool, Chain}
use tkernel.FixedPool.Pool.{Taken, take_block-Taken, free_block-IsPool}

-- Four blocks of eight bytes, of which two have been taken.
abbrev pool_2 : Mpfcb
pool_2 = record (sample.obj.mpfcb 0) { unused = 6016; frbcnt = 2 }

abbrev bytes : Mem
bytes = λ a. a % 251

pool_2-IsPool : IsPool bytes pool_2 [] 2
unfolding Chain
pool_2-IsPool = record {
  whole_words = omega arith;
  not_null = omega arith;
  in_memory = omega arith;
  used_up = omega arith;
  unused_at = refl;
  count = refl;
  chain = refl;
  below = tt;
  distinct = tt;
}

free_block-IsPool_example :
    IsPool (free_block bytes pool_2 6000).0 (free_block bytes pool_2 6000).1 (0 ∷ []) 2
free_block-IsPool_example = free_block-IsPool bytes pool_2 [] 2 0 pool_2-IsPool (omega arith) tt

abbrev mem_3 : Mem
mem_3 = (free_block bytes pool_2 6000).0

abbrev pool_3 : Mpfcb
pool_3 = (free_block bytes pool_2 6000).1

pool_3-IsPool : IsPool mem_3 pool_3 (0 ∷ []) 2
pool_3-IsPool = free_block-IsPool bytes pool_2 [] 2 0 pool_2-IsPool (omega arith) tt

take_block-Taken_example : Taken mem_3 pool_3 (0 ∷ []) 2 4000
unfolding free_block
take_block-Taken_example =
    take_block-Taken mem_3 pool_3 (0 ∷ []) 2 4000 pool_3-IsPool (omega arith) (inl (omega arith))
