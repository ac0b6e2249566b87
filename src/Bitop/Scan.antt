-- ===== src/Bitop/Scan.antt =====
-- kernel/tstdlib/bitop.c: the inner loop of the two searches, on each byte from each bit on.
use tkernel.Base.{
  ℕ, zero, suc, ◌+◌, ◌*◌, ◌/◌, ◌%◌, ◌^◌, ◌≤◌, ◌<◌, ◌≡◌, inl, inr, refl, Bool, true, false, ◌&&◌,
  ◌||◌, ◌==◌, arith, if◌then◌else◌, Option, none, some, bit_xor, all_below, all_below_sound,
  eq_of_==, ltb, Bool-cases,
}
use tkernel.Str.{Mem}
use tkernel.Bitop.{bit_shift, bit_msk_n, scan_byte, includes1, stops1, includes0, stops0}
use tkernel.Bitop.Bits.{byte_bit, bit_at, IsBytes, every_byte, every_byte_sound}

pub bit_at-byte :
    (m : Mem) (base q c i : ℕ) → c < 8 → i ≡ 8 * q + c → bit_at m base i ≡ byte_bit (m (base + q)) c
bit_at-byte m base q c i h e =
    rw (let d : i / 8 ≡ q = omega arith in d, let r : i % 8 ≡ c = omega arith in r) refl

pub or_right : (p q : Bool) → p ≡ false → (p || q) ≡ true → q ≡ true
or_right p q e h = ground arith

pub not_below : (i k : ℕ) → k ≤ i → ltb i k ≡ false
not_below i k h = ground arith

module _ (includes stops : ℕ → ℕ → Bool) (cpmask_of : ℕ → ℕ) (v w : ℕ) where
  -- What the tests say of the bits of byte `b` from bit `k` on.
  pub data ByteScan (b k : ℕ) : Type 0 where
    hit :
        (j : ℕ)
        → includes b (cpmask_of k) ≡ true
        → scan_byte includes stops (cpmask_of 0) 8 b (2 ^ k) 0 ≡ some j
        → k + j < 8
        → byte_bit b (k + j) ≡ v
        → ((i : ℕ) → i < j → byte_bit b (k + i) ≡ w)
        → ByteScan b k
    miss :
        includes b (cpmask_of k) ≡ false
        → ((i : ℕ) → i < 8 → k ≤ i → byte_bit b i ≡ w)
        → ByteScan b k

  hit_ok : ℕ → ℕ → Option ℕ → Bool
  unfolding all_below
  hit_ok b k none = false
  hit_ok b k (some j) =
      ltb (k + j) 8 && (byte_bit b (k + j) == v && all_below j (λ i. byte_bit b (k + i) == w))

  scan_ok : ℕ → ℕ → Bool
  unfolding hit_ok all_below
  scan_ok b k =
      if includes b (cpmask_of k)
      then hit_ok b k (scan_byte includes stops (cpmask_of 0) 8 b (2 ^ k) 0)
      else all_below 8 (λ i. ltb i k || byte_bit b i == w)

  hit_ok_sound :
      (b k : ℕ) (o : Option ℕ)
      → includes b (cpmask_of k) ≡ true
      → scan_byte includes stops (cpmask_of 0) 8 b (2 ^ k) 0 ≡ o
      → hit_ok b k o ≡ true
      → ByteScan b k
  unfolding hit_ok
  hit_ok_sound b k none inc e h = ground arith
  hit_ok_sound b k (some j) inc e h =
      hit j inc e (ground arith) (ground arith)
        λ i lt. eq_of_== _ _ (all_below_sound j (λ x. byte_bit b (k + x) == w) i (ground arith) lt)

  scan_ok_sound : (b k : ℕ) → scan_ok b k ≡ true → ByteScan b k
  unfolding scan_ok
  scan_ok_sound b k h = elim (Bool-cases (includes b (cpmask_of k))) [
    | inl inc ↦ hit_ok_sound b k _ inc refl (ground arith)
    | inr out ↦ miss out λ i lt le. eq_of_== _ _ (
        or_right (ltb i k) _ (not_below i k le)
          (all_below_sound 8 (λ x. ltb x k || byte_bit b x == w) i (rw out at h) lt))
  ]

  -- The position is only counted along.
  pub scan_shift :
      (f b mask p q j : ℕ)
      → scan_byte includes stops (cpmask_of 0) f b mask q ≡ some j
      → scan_byte includes stops (cpmask_of 0) f b mask (p + q) ≡ some (p + j)
  unfolding scan_byte
  scan_shift zero b mask p q j e = cc
  scan_shift (suc f) b mask p q j e = elim (Bool-cases (stops b mask)) [
    | inl s ↦ rw s (ground arith)
    | inr s ↦
        rw (s, let a : p + q + 1 ≡ p + (q + 1) = omega arith in a)
          (scan_shift f b (bit_shift mask) p (q + 1) j (rw s at e))
  ]

unfoldable pub mask1 : ℕ → ℕ
unfolding bit_msk_n
mask1 k = bit_msk_n k

unfoldable pub mask0 : ℕ → ℕ
unfolding bit_msk_n
mask0 k = bit_xor (bit_msk_n k) 255

table1 : every_byte (scan_ok includes1 stops1 mask1 1 0) ≡ true
unfolding every_byte scan_ok scan_byte includes1 stops1 mask1
table1 = refl

table0 : every_byte (scan_ok includes0 stops0 mask0 0 1) ≡ true
unfolding every_byte scan_ok scan_byte includes0 stops0 mask0
table0 = refl

pub scanned1 :
    (m : Mem) → IsBytes m → (a k : ℕ) → k < 8 → ByteScan includes1 stops1 mask1 1 0 (m a) k
scanned1 m h a k lk =
    scan_ok_sound includes1 stops1 mask1 1 0 (m a) k
      (every_byte_sound (scan_ok includes1 stops1 mask1 1 0) (m a) k table1 (h a) lk)

pub scanned0 :
    (m : Mem) → IsBytes m → (a k : ℕ) → k < 8 → ByteScan includes0 stops0 mask0 0 1 (m a) k
scanned0 m h a k lk =
    scan_ok_sound includes0 stops0 mask0 0 1 (m a) k
      (every_byte_sound (scan_ok includes0 stops0 mask0 0 1) (m a) k table0 (h a) lk)
