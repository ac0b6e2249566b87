-- ===== src/Domain/Tests.antt =====
-- The theorems on domains at a concrete kernel: the checks, at three domains, one in the other, and
-- the search for a name.
use tkernel.Base.{
  ℕ, ◌+◌, ◌*◌, Option, none, some, if◌then◌else◌, ◌≡◌, ◌⊎◌, refl, inl, inr, arith, ◌==◌, Bool-cases,
  eq_of_==,
}
use tkernel.Kernel.{Kernel, type_flg, e_ok, e_noexs, e_dacv}
use tkernel.Str.{Mem, strncmp}
use tkernel.Sample.{sample, sample_semid}
use tkernel.Domain.{mp_kdmid_self, mp_check_domain_and_protection, get_domid}
use tkernel.Domain.Names.{search_hashcb, hash_from, find_key}
use tkernel.Domain.Search.{find_name, key_of, search_hashcb-find_name}
use tkernel.Domain.Trace.{Nested, mp_check_domain_and_protection_total}

sample-Nested : Nested sample get_domid
sample-Nested id ne = elim (Bool-cases (get_domid id == 2)) [
  | inl e ↦ rw (e, eq_of_== _ 2 e) (omega arith)
  | inr a ↦ elim (Bool-cases (get_domid id == 1)) [
    | inl e ↦ rw (a, e, eq_of_== _ 1 e) (omega arith)
    | inr b ↦ absurd ((rw (a, b) at ne) refl)
  ]
]

mp_check_domain_and_protection_total_example :
    (mp_check_domain_and_protection sample 0 sample_semid sample_semid 0x40000 ≡ e_ok)
    ⊎ ((mp_check_domain_and_protection sample 0 sample_semid sample_semid 0x40000 ≡ e_noexs)
        ⊎ (mp_check_domain_and_protection sample 0 sample_semid sample_semid 0x40000 ≡ e_dacv))
mp_check_domain_and_protection_total_example =
    mp_check_domain_and_protection_total sample get_domid 0 sample_semid sample_semid 0x40000
      sample-Nested (omega arith)

-- Two names "ab" in memory, and the event flag of index 1 under it in the kernel domain.
abbrev name_mem : Mem
name_mem a =
    if a == 8100
    then 97
    else if a == 8101
    then 98
    else if a == 5000
    then 97
    else if a == 5001
    then 98
    else 0

abbrev flag_domain : ℕ → Option ℕ
flag_domain i = if i == 1 then some mp_kdmid_self else none

abbrev named_kernel : Kernel
named_kernel =
    let k = record sample { mem = name_mem } in
    record k { hash_key = λ ty i. key_of k (flag_domain i) (8000 + 100 * i) }

search_hashcb-find_name_example : search_hashcb named_kernel type_flg mp_kdmid_self 5000 ≡ (
    if named_kernel.mem 5000 == 0
    then none
    else find_name 4 named_kernel type_flg flag_domain mp_kdmid_self 5000 0)
search_hashcb-find_name_example =
    search_hashcb-find_name named_kernel type_flg flag_domain mp_kdmid_self 5000 (λ i. refl)

named_found : search_hashcb named_kernel type_flg mp_kdmid_self 5000 ≡ some 1
unfolding search_hashcb hash_from find_key strncmp
named_found = refl
