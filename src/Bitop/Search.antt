-- ===== src/Bitop/Search.antt =====
-- The two searches of kernel/tstdlib/bitop.c, `tstdlib_bitsearch1` and `tstdlib_bitsearch0`: they
-- end, and find the first bit looked for.
use tkernel.Base.{
  ℕ, zero, suc, ◌+◌, ◌-◌, ◌*◌, ◌/◌, ◌%◌, ◌^◌, ◌≤◌, ◌<◌, ◌≡◌, ◌≢◌, ◌⊎◌, inl, inr, refl, ap, subst,
  ◌∙◌, Bool, true, false, ◌==◌, arith, Option, some, ℤ, pos, negsuc, bit_xor, eq_of_==, ne_of_==,
  ltb, ltb→lt, ltb→ge, Bool-cases, ==-ne,
}
use tkernel.Str.{Mem}
use tkernel.Bitop.{
  bit_set_n, scan_byte, within_width, search_loop, includes1, stops1, includes0, stops0, bitsearch1,
  bitsearch0,
}
use tkernel.Bitop.Bits.{byte_bit, bit_at, IsBytes}
use tkernel.Bitop.Scan.{
  bit_at-byte, mask1, mask0, scanned1, scanned0, ByteScan, hit, miss, scan_shift,
}

-- The answer `r` of a search for the first bit of value `v` among the `width` bits from `offset`
-- on, where all other bits are `w`.
pub data FirstBit (m : Mem) (base offset width v w : ℕ) (r : ℤ) : Type 0 where
  found :
      (p : ℕ)
      → p < width
      → ((i : ℕ) → i < p → bit_at m base (offset + i) ≡ w)
      → bit_at m base (offset + p) ≡ v
      → r ≡ pos p
      → FirstBit m base offset width v w r
  absent :
      ((i : ℕ) → i < width → bit_at m base (offset + i) ≡ w)
      → r ≡ negsuc 0
      → FirstBit m base offset width v w r

module _ (includes stops : ℕ → ℕ → Bool) (cpmask_of : ℕ → ℕ) (v w : ℕ) where
  module _ (m : Mem) (base offset width : ℕ)
      (scanned : (a k : ℕ) → k < 8 → ByteScan includes stops cpmask_of v w (m a) k) where
    abbrev run : ℕ → ℕ → ℕ → ℕ → Option ℤ
    run f q k position =
        search_loop includes stops (cpmask_of 0) f m (base + q) (2 ^ k) (cpmask_of k) position
          offset width

    abbrev Ends : Option ℤ → Type 0
    Ends o = (r : ℤ) × (o ≡ some r) × FirstBit m base offset width v w r

    -- All bits before `position` have been passed over.
    abbrev Passed : ℕ → Type 0
    Passed position = (i : ℕ) → i < position → bit_at m base (offset + i) ≡ w

    past :
        (position q k n i : ℕ)
        → Passed position
        → offset + position ≡ 8 * q + k
        → ((c : ℕ) → c < n → byte_bit (m (base + q)) (k + c) ≡ w)
        → k + n ≤ 8
        → i < position + n
        → bit_at m base (offset + i) ≡ w
    past position q k n i before e here fits lt = elim (Bool-cases (ltb i position)) [
      | inl old ↦ before i (ltb→lt _ _ old)
      | inr new ↦
          let ge = ltb→ge i position new in
          bit_at-byte m base q (k + (i - position)) (offset + i) (omega arith) (omega arith)
          ∙ here (i - position) (omega arith)
    ]

    hit_eq :
        (f cp mask cpmask position p : ℕ)
        → position < width
        → includes (m cp) cpmask ≡ true
        → scan_byte includes stops (cpmask_of 0) 8 (m cp) mask position ≡ some p
        → search_loop includes stops (cpmask_of 0) (suc f) m cp mask cpmask position offset width
          ≡ some (within_width includes stops (cpmask_of 0) width p)
    unfolding search_loop
    hit_eq f cp mask cpmask position p lt inc scan =
        rw (let t : ltb position width ≡ true = ground arith in t, inc, scan) refl

    first_eq :
        (f cp mask cpmask : ℕ)
        → 0 < width
        → includes (m cp) cpmask ≡ false
        → search_loop includes stops (cpmask_of 0) (suc f) m cp mask cpmask 0 offset width
          ≡ search_loop includes stops
              (cpmask_of 0)
              f
              m
              (cp + 1)
              1
              (cpmask_of 0)
              (8 - offset % 8)
              offset
              width
    unfolding search_loop bit_set_n
    first_eq f cp mask cpmask lt inc = rw (let t : ltb 0 width ≡ true = ground arith in t, inc) refl

    later_eq :
        (f cp mask cpmask position : ℕ)
        → position < width
        → position ≢ 0
        → includes (m cp) cpmask ≡ false
        → search_loop includes stops (cpmask_of 0) (suc f) m cp mask cpmask position offset width
          ≡ search_loop includes stops
              (cpmask_of 0)
              f
              m
              (cp + 1)
              mask
              cpmask
              (position + 8)
              offset
              width
    unfolding search_loop
    later_eq f cp mask cpmask position lt nz inc =
        rw (let t : ltb position width ≡ true = ground arith in t, inc, ==-ne _ _ nz) refl

    end_eq :
        (f cp mask cpmask position : ℕ)
        → width ≤ position
        → search_loop includes stops (cpmask_of 0) (suc f) m cp mask cpmask position offset width
          ≡ some (negsuc 0)
    unfolding search_loop
    end_eq f cp mask cpmask position le =
        rw (let t : ltb position width ≡ false = ground arith in t) refl

    answer :
        (position q k j : ℕ)
        → Passed position
        → offset + position ≡ 8 * q + k
        → k + j < 8
        → byte_bit (m (base + q)) (k + j) ≡ v
        → ((i : ℕ) → i < j → byte_bit (m (base + q)) (k + i) ≡ w)
        → FirstBit m base offset width v w
            (within_width includes stops (cpmask_of 0) width (position + j))
    unfolding within_width
    answer position q k j before e lj bit zeros = elim (Bool-cases (ltb (position + j) width)) [
      | inl inn ↦ rw inn (
          found (position + j) (ltb→lt _ _ inn)
            (λ i lt. past position q k j i before e zeros (omega arith) lt)
            (bit_at-byte m base q (k + j) (offset + (position + j)) lj (omega arith) ∙ bit) refl)
      | inr out ↦ rw out (
          absent
            (λ i lt.
              past position q k j i before e zeros (omega arith) (omega (arith, ltb→ge _ _ out)))
            refl)
    ]

    scan_at :
        (b mask p j : ℕ)
        → scan_byte includes stops (cpmask_of 0) 8 b mask 0 ≡ some j
        → scan_byte includes stops (cpmask_of 0) 8 b mask p ≡ some (p + j)
    scan_at b mask p j e =
        subst (λ x. scan_byte includes stops (cpmask_of 0) 8 b mask x ≡ some (p + j))
          (let z : p + 0 ≡ p = omega arith in z)
          (scan_shift includes stops cpmask_of v w 8 b mask p 0 j e)

    miss_Passed :
        (position q k next : ℕ)
        → Passed position
        → offset + position ≡ 8 * q + k
        → k < 8
        → ((i : ℕ) → i < 8 → k ≤ i → byte_bit (m (base + q)) i ≡ w)
        → next ≡ position + (8 - k)
        → Passed next
    miss_Passed position q k next before e lk zeros d i lt =
        past position q k (8 - k) i before e (λ c lc. zeros (k + c) (omega arith) (omega arith))
          (omega arith) (omega arith)

    next_address : (q : ℕ) → base + q + 1 ≡ base + suc q
    next_address q = omega arith

    -- With fuel for every position left the loop ends, and its answer is right.
    loop_Ends :
        (f q k position : ℕ)
        → k < 8
        → Passed position
        → offset + position ≡ 8 * q + k
        → (position ≡ 0) ⊎ (k ≡ 0)
        → width - position < f
        → Ends (run f q k position)
    loop_Ends zero q k position lk before e first fuel = absurd (omega arith)
    loop_Ends (suc f) q k position lk before e first fuel = elim (Bool-cases (ltb position width)) [
      | inr out ↦ (
        negsuc 0,
        end_eq f _ _ _ position (ltb→ge _ _ out),
        absent (λ i lt. before i (omega (arith, ltb→ge _ _ out))) refl,
      )
      | inl inn ↦ elim (scanned (base + q) k lk) [
        | hit j inc scan lj bit zeros ↦ (
          _,
          hit_eq f _ _ _ position (position + j) (ltb→lt _ _ inn) inc (scan_at _ _ position j scan),
          answer position q k j before e lj bit zeros,
        )
        | miss out zeros ↦ elim (Bool-cases (position == 0)) [
          | inl z ↦
              let z' = eq_of_== _ _ z in
              let rest =
                loop_Ends f (suc q) 0 (8 - offset % 8) (omega arith)
                  (miss_Passed position q k _ before e lk zeros (omega arith)) (omega arith)
                  (inr refl) (omega (arith, ltb→lt _ _ inn)) in
              rw z' (
                rest.0,
                first_eq f _ _ _ (omega (arith, ltb→lt _ _ inn)) out ∙ rw (next_address q) rest.1,
                rest.2,
              )
          | inr nz ↦
              let z : k ≡ 0 = omega (arith, ne_of_== _ _ nz) in
              let rest =
                loop_Ends f (suc q) k (position + 8) lk
                  (miss_Passed position q k _ before e lk zeros (omega arith)) (omega arith) (inr z)
                  (omega (arith, ltb→lt _ _ inn)) in
              (
                rest.0,
                later_eq f _ _ _ position (ltb→lt _ _ inn) (ne_of_== _ _ nz) out
                    ∙ rw (next_address q) rest.1,
                rest.2,
              )
        ]
      ]
    ]

mod-mod8 : (n : ℕ) → n % 8 % 8 ≡ n % 8
mod-mod8 n = omega arith

-- In a memory of bytes, for an offset and a width that are not negative,
-- `tstdlib_bitsearch1` ends with the position of the first bit that is set, and -1 if there is
-- none within the width. One round of the outer loop for each position is fuel enough.
pub bitsearch1_lem :
    (m : Mem) (base offset width : ℕ)
    → IsBytes m
    → (r : ℤ) × (bitsearch1 (suc width) m base (pos offset) (pos width) ≡ some r)
      × FirstBit m base offset width 1 0 r
unfolding bitsearch1 mask1
bitsearch1_lem m base offset width h = rw (← ap (λ x. 255 * 2 ^ x % 256) (mod-mod8 offset)) (
    loop_Ends includes1 stops1 mask1 1 0 m base offset width (scanned1 m h) (suc width) (offset / 8)
      (offset % 8) 0 (omega arith) (λ i lt. absurd (omega arith)) (omega arith) (inl refl)
      (omega arith))

-- In a memory of bytes, for an offset and a width that are not negative,
-- `tstdlib_bitsearch0` ends with the position of the first bit that is clear, and -1 if there is
-- none within the width. One round of the outer loop for each position is fuel enough.
bitsearch0_lem :
    (m : Mem) (base offset width : ℕ)
    → IsBytes m
    → (r : ℤ) × (bitsearch0 (suc width) m base (pos offset) (pos width) ≡ some r)
      × FirstBit m base offset width 0 1 r
unfolding bitsearch0 mask0
bitsearch0_lem m base offset width h =
    rw (← ap (λ x. bit_xor (255 * 2 ^ x % 256) 255) (mod-mod8 offset)) (
      loop_Ends includes0 stops0 mask0 0 1 m base offset width (scanned0 m h) (suc width)
        (offset / 8) (offset % 8) 0 (omega arith) (λ i lt. absurd (omega arith)) (omega arith)
        (inl refl) (omega arith))
