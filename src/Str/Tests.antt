-- ===== src/Str/Tests.antt =====
-- The theorems on memory and strings at a memory that holds "ab" at 100.
use tkernel.Base.{◌≡◌, refl, arith, ◌==◌, if◌then◌else◌}
use tkernel.Str.{Mem, memmove}
use tkernel.Str.Copy.{memmove_lem}
use tkernel.Str.Strings.{IsString}

abbrev text : Mem
text a = if a == 100 then 97 else if a == 101 then 98 else 0

text-IsString : IsString text 100 2
text-IsString = record { body = λ i lt. ground arith; nul = refl }

empty-IsString : IsString text 200 0
empty-IsString = record { body = λ i lt. absurd (omega arith); nul = refl }

memmove_lem_example : memmove text 101 100 2 102 ≡ 98
memmove_lem_example = memmove_lem text 101 100 2 102
