-- ===== src/Str/Strings.antt =====
-- NUL-terminated strings: `strlen`, `strcpy`, `strncpy` and `strcat` of lib/libstr/src/string.c.
use tkernel.Base.{
  ◌-◌, ◌≢◌, ◌⊎◌, refl, ltb, ℕ, zero, suc, ◌+◌, ◌≤◌, ◌<◌, ◌≡◌, arith, if◌then◌else◌, update, some,
  ap,
}
use tkernel.Str.{Mem, strlen, strcpy, strncpy, strcat, find_end, append_from}
use tkernel.Str.Fill.{inside, fill_bytes_lem}

-- A string of `l` bytes before its NUL at `s`.
pub record IsString (m : Mem) (s l : ℕ) : Type 0 where
  pub body : (i : ℕ) → i < l → m (s + i) ≢ 0
  pub nul : m (s + l) ≡ 0

pub IsString-nil : {m : Mem} {s : ℕ} → IsString m s 0 → m s ≡ 0
IsString-nil {m} {s} h = rw (ap m (let e : s ≡ s + 0 = omega arith in e)) h.nul

pub IsString-head : {m : Mem} {s l : ℕ} → IsString m s (suc l) → m s ≢ 0
IsString-head {m} {s} h = rw (ap m (let e : s ≡ s + 0 = omega arith in e)) (h.body 0 (omega arith))

pub IsString-tail : {m : Mem} {s l : ℕ} → IsString m s (suc l) → IsString m (s + 1) l
IsString-tail {m} {s} {l} h = record {
  body = λ i lt.
      rw (ap m (let e : s + 1 + i ≡ s + suc i = omega arith in e)) (h.body (suc i) (omega arith));
  nul = rw (ap m (let e : s + 1 + l ≡ s + suc l = omega arith in e)) h.nul;
}

-- A memory with the same bytes in the string's area has the same string.
pub IsString-same :
    {m m' : Mem} {s l : ℕ}
    → IsString m s l
    → ((i : ℕ) → i ≤ l → m' (s + i) ≡ m (s + i))
    → IsString m' s l
IsString-same {m} {m'} {s} {l} h e = record {
  body = λ i lt. rw (e i (omega arith)) (h.body i lt);
  nul = rw (e l (omega arith)) h.nul;
}

-- With fuel above the length, `strlen` finds the length.
strlen_lem : (f l : ℕ) (m : Mem) (s : ℕ) → IsString m s l → l < f → strlen f m s ≡ some l
unfolding strlen
strlen_lem zero l m s h lt = absurd (omega arith)
strlen_lem (suc f) zero m s h lt = rw (IsString-nil h) refl
strlen_lem (suc f) (suc l) m s h lt =
    ground (arith, IsString-head h, strlen_lem f l m (s + 1) (IsString-tail h))

abbrev pub Apart : ℕ → ℕ → ℕ → Type 0
Apart dst src n = (dst + n ≤ src) ⊎ (src + n ≤ dst)

abbrev pub Copied : Mem → ℕ → ℕ → ℕ → Mem → Type 0
Copied m dst src n m' = (a : ℕ) → m' a ≡ (if inside dst n a then m (src + (a - dst)) else m a)

Copied-step :
    (m : Mem) (dst src n : ℕ) (m' : Mem)
    → (dst + suc n ≤ src) ⊎ (src + suc n ≤ dst)
    → Copied (update m dst (m src)) (dst + 1) (src + 1) n m'
    → Copied m dst src (suc n) m'
Copied-step m dst src n m' ap_art h a =
    ground (arith, h a, λ (e : a ≡ dst). ap (λ x. m (src + (x - dst))) e)

IsString-write :
    {m : Mem} {src l : ℕ} (dst v : ℕ)
    → IsString m src l
    → (dst + 1 ≤ src) ⊎ (src + l < dst)
    → IsString (update m dst v) src l
IsString-write dst v h far = IsString-same h (λ i lt. ground arith)

Copied-one : (m : Mem) (dst src : ℕ) → Copied m dst src 1 (update m dst (m src))
Copied-one m dst src a = ground (arith, λ (e : a ≡ dst). ap (λ x. m (src + (x - dst))) e)

-- `strcpy` onto an area apart from the string, with fuel above the length, copies the string and
-- its NUL, and changes no other byte.
strcpy_lem :
    (f l : ℕ) (m : Mem) (dst src : ℕ)
    → IsString m src l
    → l < f
    → Apart dst src (suc l)
    → (m' : Mem) × (strcpy f m dst src ≡ some m') × Copied m dst src (suc l) m'
unfolding strcpy
strcpy_lem zero l m dst src h lt far = absurd (omega arith)
strcpy_lem (suc f) zero m dst src h lt far =
    (update m dst (m src), ground (arith, IsString-nil h), Copied-one m dst src)
strcpy_lem (suc f) (suc l) m dst src h lt far =
    let tail = IsString-write dst (m src) (IsString-tail h) (omega arith) in
    let (m', e, c) =
      strcpy_lem f l (update m dst (m src)) (dst + 1) (src + 1) tail (omega arith) (omega arith) in
    (m', ground (arith, e, IsString-head h), Copied-step m dst src (suc l) m' far c)

-- What `strncpy` leaves in the `n` bytes from `dst` on: the string, cut at `n` bytes or filled up
-- with NULs.
abbrev pub Padded : Mem → ℕ → ℕ → ℕ → ℕ → Mem → Type 0
Padded m dst src l n m' =
    (a : ℕ)
    → m' a ≡ (if inside dst n a then (if ltb (a - dst) l then m (src + (a - dst)) else 0) else m a)

Padded-nul :
    (m : Mem) (dst src n : ℕ) → m src ≡ 0 → Padded m dst src 0 (suc n) (strncpy m dst src (suc n))
unfolding strncpy
Padded-nul m dst src n e a = ground (arith, fill_bytes_lem (update m dst (m src)) (dst + 1) 0 n a)

Padded-cons :
    (m : Mem) (dst src l n : ℕ) (m' : Mem)
    → (dst + suc n ≤ src) ⊎ (src + suc l < dst)
    → Padded (update m dst (m src)) (dst + 1) (src + 1) l n m'
    → Padded m dst src (suc l) (suc n) m'
Padded-cons m dst src l n m' far h a =
    ground (arith, h a, λ (e : a ≡ dst). ap (λ x. m (src + (x - dst))) e)

strncpy-cons :
    (m : Mem) (dst src n : ℕ)
    → m src ≢ 0
    → (dst + suc n ≤ src) ⊎ (src < dst)
    → strncpy m dst src (suc n) ≡ strncpy (update m dst (m src)) (dst + 1) (src + 1) n
unfolding strncpy
strncpy-cons m dst src n h far = ground arith

-- `strncpy` of a string onto an area of `n` bytes that ends below it or begins above its NUL
-- copies the string as far as it fits, fills up with NULs, and changes no other byte.
pub strncpy_lem :
    (l n : ℕ) (m : Mem) (dst src : ℕ)
    → IsString m src l
    → (dst + n ≤ src) ⊎ (src + l < dst)
    → Padded m dst src l n (strncpy m dst src n)
strncpy_lem l zero m dst src h far = unfold strncpy in λ a. ground arith
strncpy_lem zero (suc n) m dst src h far = Padded-nul m dst src n (IsString-nil h)
strncpy_lem (suc l) (suc n) m dst src h far =
    rw (strncpy-cons m dst src n (IsString-head h) (omega arith)) (
      Padded-cons m dst src l n _ far (
        strncpy_lem l n (update m dst (m src)) (dst + 1) (src + 1)
          (IsString-write dst (m src) (IsString-tail h) (omega arith)) (omega arith)))

find_end_lem : (f l : ℕ) (m : Mem) (s : ℕ) → IsString m s l → l < f → find_end f m s ≡ some (s + l)
unfolding find_end
find_end_lem zero l m s h lt = absurd (omega arith)
find_end_lem (suc f) zero m s h lt = ground (arith, IsString-nil h)
find_end_lem (suc f) (suc l) m s h lt =
    ground (arith, IsString-head h, find_end_lem f l m (s + 1) (IsString-tail h))

append_from_lem :
    (f l : ℕ) (m : Mem) (dst src : ℕ)
    → IsString m src l
    → l < f
    → Apart dst src (suc l)
    → (m' : Mem) × (append_from f m dst src ≡ some m') × Copied m dst src (suc l) m'
unfolding append_from
append_from_lem zero l m dst src h lt far = absurd (omega arith)
append_from_lem (suc f) zero m dst src h lt far =
    (update m dst 0, ground (arith, IsString-nil h), rw (← IsString-nil h) (Copied-one m dst src))
append_from_lem (suc f) (suc l) m dst src h lt far =
    let tail = IsString-write dst (m src) (IsString-tail h) (omega arith) in
    let (m', e, c) =
      append_from_lem f l (update m dst (m src)) (dst + 1) (src + 1) tail (omega arith)
        (omega arith) in
    (m', ground (arith, e, IsString-head h), Copied-step m dst src (suc l) m' far c)

-- `strcat` with fuel above both lengths writes the second string with its NUL over the NUL of the
-- first, where that area is apart from the second string, and changes no other byte.
strcat_lem :
    (f k l : ℕ) (m : Mem) (dst src : ℕ)
    → IsString m dst k
    → IsString m src l
    → k < f
    → l < f
    → Apart (dst + k) src (suc l)
    → (m' : Mem) × (strcat f m dst src ≡ some m') × Copied m (dst + k) src (suc l) m'
unfolding strcat
strcat_lem f k l m dst src hd hs lk ll far =
    rw (find_end_lem f k m dst hd lk, strcat) (append_from_lem f l m (dst + k) src hs ll far)
