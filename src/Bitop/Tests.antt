-- ===== src/Bitop/Tests.antt =====
-- The theorems on bit strings at a memory whose bytes are all 0x60.
use tkernel.Base.{◌≡◌, some, arith, ℤ, pos}
use tkernel.Str.{Mem}
use tkernel.Bitop.{bitsearch1}
use tkernel.Bitop.Bits.{IsBytes}
use tkernel.Bitop.Search.{FirstBit, bitsearch1_lem}

abbrev bits : Mem
bits a = 0x60

bits-IsBytes : IsBytes bits
bits-IsBytes a = omega arith

bitsearch1_lem_example :
    (r : ℤ) × (bitsearch1 13 bits 4 (pos 7) (pos 12) ≡ some r) × FirstBit bits 4 7 12 1 0 r
bitsearch1_lem_example = bitsearch1_lem bits 4 7 12 bits-IsBytes
