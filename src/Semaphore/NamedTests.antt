-- ===== src/Semaphore/NamedTests.antt =====
-- The theorem on creation and search at a concrete kernel.
use tkernel.Base.{◌+◌, ◌^◌, ◌≡◌, refl, arith, [], ◌∷◌, if◌then◌else◌, ◌==◌, pos, inr}
use tkernel.Str.{Mem, strncmp}
use tkernel.Str.Strings.{IsString}
use tkernel.Kernel.{Kernel, done, e_ok, type_sem}
use tkernel.Domain.{check_exception_condition}
use tkernel.Domain.Names.{
  mp_existence_check_of_domain, mp_existence_check_of_oname, mp_check_protection_cre, search_hashcb,
  hash_from, find_key,
}
use tkernel.Domain.Objects.{cre_check}
use tkernel.Sample.{sample}
use tkernel.Semaphore.Create.{Csem, tk_cre_sem, td_fnd_sem}
use tkernel.Semaphore.Named.{Creating, td_fnd_sem-tk_cre_sem}

-- The name "ab" at 5000.
abbrev name_mem : Mem
name_mem a = if a == 5000 then 97 else if a == 5001 then 98 else 0

abbrev unnamed : Kernel
unnamed = record sample { mem = name_mem }

abbrev csem : Csem
csem = record { sematr = 0x10040; isemcnt = pos 1; maxsem = pos 10; domid = 2 ^ 24; oname = 5000 }

csem_accepted : cre_check unnamed 0 type_sem 0x10040 (2 ^ 24) 5000 ≡ e_ok
unfolding cre_check mp_existence_check_of_domain mp_existence_check_of_oname mp_check_protection_cre
    search_hashcb hash_from find_key strncmp check_exception_condition
csem_accepted = refl

name_IsString : IsString name_mem 5000 2
name_IsString = record { body = λ i lt. ground arith; nul = refl }

csem-Creating : Creating unnamed 0 csem 1 10 1 (2 ∷ []) 2
csem-Creating = record {
  attributes = refl;
  one_patr = refl;
  with_domid = refl;
  with_oname = refl;
  domid_ok = refl;
  initial = refl;
  maximum = refl;
  positive = omega arith;
  fits = omega arith;
  accepted = csem_accepted;
  next_free = refl;
  has_key = omega arith;
  name = name_IsString;
  not_empty = refl;
  name_apart = inr (omega arith);
  fields_apart = λ x ne. ground arith;
}

td_fnd_sem-tk_cre_sem_example :
    ((tk_cre_sem unnamed 0 csem).1 ≡ done (2 ^ 24 + 2))
    × (td_fnd_sem (tk_cre_sem unnamed 0 csem).0 (2 ^ 24) 5000 ≡ done (2 ^ 24 + 2))
td_fnd_sem-tk_cre_sem_example = td_fnd_sem-tk_cre_sem unnamed 0 csem 1 10 1 2 (2 ∷ []) csem-Creating
