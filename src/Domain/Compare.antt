-- ===== src/Domain/Compare.antt =====
-- kernel/tkernel/smp_src/mp_domain.c: the bytes on which the hash and the comparison of names depend.
use tkernel.Base.{
  ℕ, zero, suc, ◌+◌, ◌*◌, ◌%◌, ◌^◌, ◌<◌, ◌≡◌, inl, inr, refl, arith, ltb, if◌then◌else◌, Bool-cases,
  ◌==◌, ==-refl, pos, sub_ℕ_self,
}
use tkernel.Str.{Mem, strncmp}
use tkernel.Str.Strings.{IsString, IsString-nil, IsString-tail}
use tkernel.Domain.Names.{hash_from}

-- The same bytes in an area.
abbrev pub Agree : Mem → Mem → ℕ → ℕ → Type 0
Agree m m' a n = (i : ℕ) → i < n → m' (a + i) ≡ m (a + i)

same_head : (m m' : Mem) (a n : ℕ) → Agree m m' a (suc n) → m' a ≡ m a
same_head m m' a n s = ground (arith, s 0)

same_tail : (m m' : Mem) (a n : ℕ) → Agree m m' a (suc n) → Agree m m' (a + 1) n
same_tail m m' a n s i lt = ground (arith, s (i + 1))

pub strncmp_same :
    (n : ℕ) (m m' : Mem) (a b : ℕ)
    → Agree m m' a n
    → Agree m m' b n
    → strncmp m' a b n ≡ strncmp m a b n
unfolding strncmp
strncmp_same zero m m' a b s t = refl
strncmp_same (suc n) m m' a b s t =
    rw
      (
        same_head m m' a n s,
        same_head m m' b n t,
        strncmp_same n m m' (a + 1) (b + 1) (same_tail m m' a n s) (same_tail m m' b n t),
      )
      refl

pub hash_from_same :
    (n : ℕ) (m m' : Mem) (a i h : ℕ) → Agree m m' a n → hash_from n m' a i h ≡ hash_from n m a i h
unfolding hash_from
hash_from_same zero m m' a i h s = refl
hash_from_same (suc n) m m' a i h s =
    rw
      (
        same_head m m' a n s,
        hash_from_same n m m' (a + 1) (i + 1) ((h * 17 + m a) % 2 ^ 16) (same_tail m m' a n s),
      )
      refl

-- A copy that is filled up with NULs compares as equal.
pub strncmp_padded :
    (n l : ℕ) (m : Mem) (a b : ℕ)
    → IsString m b l
    → ((i : ℕ) → i < n → m (a + i) ≡ (if ltb i l then m (b + i) else 0))
    → strncmp m a b n ≡ pos 0
unfolding strncmp
strncmp_padded zero l m a b h p = refl
strncmp_padded (suc n) zero m a b h p =
    let z : m a ≡ 0 = ground (arith, p 0) in rw (z, IsString-nil h) refl
strncmp_padded (suc n) (suc l) m a b h p =
    let e : m a ≡ m b = ground (arith, p 0) in
    let rest =
      strncmp_padded n l m (a + 1) (b + 1) (IsString-tail h) (λ i lt. ground (arith, p (i + 1))) in
    elim (Bool-cases (m b == 0)) [
      | inl z ↦ rw (e, z) (sub_ℕ_self (m b))
      | inr nz ↦ rw (e, nz, ==-refl (m b)) rest
    ]
