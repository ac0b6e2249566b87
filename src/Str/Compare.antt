-- ===== src/Str/Compare.antt =====
-- The comparing functions of lib/libstr/src/string.c, and `strlen`.
use tkernel.Base.{
  ℕ, zero, suc, ◌+◌, ◌<◌, ◌≡◌, ◌≢◌, ◌⊎◌, inl, inr, refl, ◌==◌, arith, some, ap, ℤ, pos, sub_ℕ,
  Bool-cases, eq_of_==, ne_of_==,
}
use tkernel.Str.{Mem, memcmp, strcmp, strncmp}
use tkernel.Str.Strings.{IsString, IsString-nil, IsString-head, IsString-tail}

-- The bytes `p` on of the two areas differ, and all before are equal.
abbrev pub DifferAt : Mem → ℕ → ℕ → ℕ → Type 0
DifferAt m s1 s2 p = ((i : ℕ) → i < p → m (s1 + i) ≡ m (s2 + i)) × (m (s1 + p) ≢ m (s2 + p))

shift : (m : Mem) (s i : ℕ) → m (s + suc i) ≡ m (s + 1 + i)
shift m s i = ap m (omega arith)

at_zero : (m : Mem) (s : ℕ) → m (s + 0) ≡ m s
at_zero m s = ap m (omega arith)

extend_eq :
    (m : Mem) (s1 s2 p : ℕ)
    → m s1 ≡ m s2
    → ((i : ℕ) → i < p → m (s1 + 1 + i) ≡ m (s2 + 1 + i))
    → (i : ℕ) → i < suc p
    → m (s1 + i) ≡ m (s2 + i)
extend_eq m s1 s2 p e h zero lt = rw (at_zero m s1, at_zero m s2) e
extend_eq m s1 s2 p e h (suc i) lt = rw (shift m s1 i, shift m s2 i) (h i (omega arith))

-- `memcmp` returns 0 if the areas hold the same `n` bytes, and otherwise the difference of the
-- bytes at the first place where they differ.
memcmp_lem :
    (m : Mem) (s1 s2 n : ℕ)
    → (((i : ℕ) → i < n → m (s1 + i) ≡ m (s2 + i)) × (memcmp m s1 s2 n ≡ pos 0))
      ⊎ ((p : ℕ) × (p < n)
          × DifferAt m s1 s2 p
          × (memcmp m s1 s2 n ≡ sub_ℕ (m (s1 + p)) (m (s2 + p))))
unfolding memcmp
memcmp_lem m s1 s2 zero = inl (λ i h. absurd (omega arith), refl)
memcmp_lem m s1 s2 (suc n) = elim (Bool-cases (m s1 == m s2)) [
  | inl e ↦ elim (memcmp_lem m (s1 + 1) (s2 + 1) n) [
    | inl (same, r) ↦ inl (extend_eq m s1 s2 n (eq_of_== _ _ e) same, rw e r)
    | inr (p, lt, (same, ne), r) ↦ inr (
      suc p,
      omega arith,
      (extend_eq m s1 s2 p (eq_of_== _ _ e) same, rw (shift m s1 p, shift m s2 p) ne),
      rw (e, shift m s1 p, shift m s2 p) r,
    )
  ]
  | inr e ↦ inr (
    0,
    omega arith,
    (λ i h. absurd (omega arith), rw (at_zero m s1, at_zero m s2) (ne_of_== _ _ e)),
    rw (e, at_zero m s1, at_zero m s2) refl,
  )
]

-- The first `p` bytes of the two strings agree, and no NUL is among them.
abbrev pub SamePrefix : Mem → ℕ → ℕ → ℕ → Type 0
SamePrefix m s1 s2 p = (i : ℕ) → i < p → (m (s1 + i) ≡ m (s2 + i)) × (m (s1 + i) ≢ 0)

SamePrefix-cons :
    (m : Mem) (s1 s2 p : ℕ)
    → m s1 ≡ m s2
    → m s1 ≢ 0
    → SamePrefix m (s1 + 1) (s2 + 1) p
    → SamePrefix m s1 s2 (suc p)
SamePrefix-cons m s1 s2 p e nz h zero lt = (rw (at_zero m s1, at_zero m s2) e, rw (at_zero m s1) nz)
SamePrefix-cons m s1 s2 p e nz h (suc i) lt = rw (shift m s1 i, shift m s2 i) (h i (omega arith))

SamePrefix-nil : (m : Mem) (s1 s2 : ℕ) → SamePrefix m s1 s2 0
SamePrefix-nil m s1 s2 i h = absurd (omega arith)

-- How a comparison of two strings that reads `n` bytes at most ends: after `n` bytes or a common
-- NUL with 0, or where the bytes first differ, with their difference.
pub data Compared (m : Mem) (s1 s2 n : ℕ) (r : ℤ) : Type 0 where
  same_all : SamePrefix m s1 s2 n → r ≡ pos 0 → Compared m s1 s2 n r
  same_end :
      (p : ℕ)
      → p < n
      → SamePrefix m s1 s2 p
      → m (s1 + p) ≡ 0
      → m (s2 + p) ≡ 0
      → r ≡ pos 0
      → Compared m s1 s2 n r
  differ :
      (p : ℕ)
      → p < n
      → SamePrefix m s1 s2 p
      → m (s1 + p) ≢ m (s2 + p)
      → r ≡ sub_ℕ (m (s1 + p)) (m (s2 + p))
      → Compared m s1 s2 n r

Compared-cons :
    (m : Mem) (s1 s2 n : ℕ) (r : ℤ)
    → m s1 ≡ m s2
    → m s1 ≢ 0
    → Compared m (s1 + 1) (s2 + 1) n r
    → Compared m s1 s2 (suc n) r
Compared-cons m s1 s2 n r e nz (same_all h z) = same_all (SamePrefix-cons m s1 s2 n e nz h) z
Compared-cons m s1 s2 n r e nz (same_end p lt h z1 z2 z) =
    same_end (suc p) (omega arith) (SamePrefix-cons m s1 s2 p e nz h) (rw (shift m s1 p) z1)
      (rw (shift m s2 p) z2) z
Compared-cons m s1 s2 n r e nz (differ p lt h ne z) =
    differ (suc p) (omega arith) (SamePrefix-cons m s1 s2 p e nz h)
      (rw (shift m s1 p, shift m s2 p) ne) (rw (shift m s1 p, shift m s2 p) z)

Compared-head :
    (m : Mem) (s1 s2 n : ℕ)
    → (m s1 ≡ 0) ⊎ (m s1 ≢ m s2)
    → Compared m s1 s2 (suc n) (sub_ℕ (m s1) (m s2))
Compared-head m s1 s2 n h = elim (Bool-cases (m s1 == m s2)) [
  | inl e ↦
      same_end 0 (omega arith) (SamePrefix-nil m s1 s2) (rw (at_zero m s1) (ground arith))
        (rw (at_zero m s2) (ground arith)) (ground arith)
  | inr e ↦
      differ 0 (omega arith) (SamePrefix-nil m s1 s2)
        (rw (at_zero m s1, at_zero m s2) (ne_of_== _ _ e)) (rw (at_zero m s1, at_zero m s2) refl)
]

-- `strncmp` compares as described for its bound `n`.
strncmp_lem : (m : Mem) (s1 s2 n : ℕ) → Compared m s1 s2 n (strncmp m s1 s2 n)
unfolding strncmp
strncmp_lem m s1 s2 zero = same_all (SamePrefix-nil m s1 s2) refl
strncmp_lem m s1 s2 (suc n) = elim (Bool-cases (m s1 == 0)) [
  | inl z ↦ rw z (Compared-head m s1 s2 n (inl (eq_of_== _ _ z)))
  | inr nz ↦ elim (Bool-cases (m s1 == m s2)) [
    | inl e ↦
        rw (nz, e)
          (Compared-cons m s1 s2 n _ (eq_of_== _ _ e) (ne_of_== _ _ nz)
            (strncmp_lem m (s1 + 1) (s2 + 1) n))
    | inr ne ↦ rw (nz, ne) (Compared-head m s1 s2 n (inr (ne_of_== _ _ ne)))
  ]
]

-- `strcmp` of a string of `l` bytes with any other, with fuel above `l`, ends and compares as
-- `strncmp` does with a bound above `l`.
strcmp-strncmp :
    (f l : ℕ) (m : Mem) (s1 s2 : ℕ)
    → IsString m s1 l
    → l < f
    → strcmp f m s1 s2 ≡ some (strncmp m s1 s2 f)
unfolding strcmp strncmp
strcmp-strncmp zero l m s1 s2 h lt = absurd (omega arith)
strcmp-strncmp (suc f) zero m s1 s2 h lt = ground (arith, IsString-nil h)
strcmp-strncmp (suc f) (suc l) m s1 s2 h lt =
    ground (
      arith,
      IsString-head h,
      strcmp-strncmp f l m (s1 + 1) (s2 + 1) (IsString-tail h) (omega arith),
    )
