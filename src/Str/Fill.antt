-- ===== src/Str/Fill.antt =====
-- What `memset` of lib/libstr/src/string.c leaves in memory.
use tkernel.Base.{
  ℕ, zero, suc, ◌+◌, ◌*◌, ◌%◌, ◌<◌, ◌≡◌, refl, Bool, true, ◌&&◌, ◌==◌, arith, ltb, leb,
  if◌then◌else◌, update, eq_of_==, all_below, all_below_sound, Bool-cases, inl, inr,
}
use tkernel.Str.{Mem, fill_bytes, fill_align, store_word, fill_words, splat, fill_long, memset}

-- Whether the address `a` is one of the `n` from `s` on.
abbrev pub inside : ℕ → ℕ → ℕ → Bool
inside s n a = leb s a && ltb a (s + n)

pub fill_bytes_lem :
    (m : Mem) (cp v n a : ℕ) → fill_bytes m cp v n a ≡ (if inside cp n a then v else m a)
unfolding fill_bytes
fill_bytes_lem m cp v zero a = ground arith
fill_bytes_lem m cp v (suc n) a = ground (arith, fill_bytes_lem (update m cp v) (cp + 1) v n a)

splat_table : all_below 256 (λ c. splat c == c * 16843009) ≡ true
unfolding all_below splat
splat_table = refl

splat_lem : (c : ℕ) → c < 256 → splat c ≡ c * 16843009
splat_lem c h = eq_of_== _ _ (all_below_sound 256 _ c splat_table h)

store_word_lem :
    (m : Mem) (lp c a : ℕ)
    → c < 256
    → store_word m lp (c * 16843009) a ≡ (if inside lp 4 a then c else m a)
unfolding store_word
store_word_lem m lp c a h = ground arith

fill_words_lem :
    (m : Mem) (lp c n a : ℕ)
    → c < 256
    → (let (m', lp', n') = fill_words m lp (c * 16843009) n in fill_bytes m' lp' c n') a
      ≡ (if inside lp n a then c else m a)
unfolding fill_words
fill_words_lem m lp c (suc (suc (suc (suc n)))) a h = ground (
  arith,
  fill_words_lem (store_word m lp (c * 16843009)) (lp + 4) c n a h,
  store_word_lem m lp c a h,
)
fill_words_lem m lp c zero a h = fill_bytes_lem m lp c 0 a
fill_words_lem m lp c (suc zero) a h = fill_bytes_lem m lp c 1 a
fill_words_lem m lp c (suc (suc zero)) a h = fill_bytes_lem m lp c 2 a
fill_words_lem m lp c (suc (suc (suc zero))) a h = fill_bytes_lem m lp c 3 a

fill_align_lem :
    (m : Mem) (cp c n a : ℕ)
    → c < 256
    → (let (m1, cp1, n1) = fill_align m cp c n in
          let (m2, lp, n2) = fill_words m1 cp1 (c * 16843009) n1 in fill_bytes m2 lp c n2)
        a
      ≡ (if inside cp n a then c else m a)
unfolding fill_align
fill_align_lem m cp c zero a h = fill_words_lem m cp c 0 a h
fill_align_lem m cp c (suc n) a h = elim (Bool-cases (cp % 4 == 0)) [
  | inl e ↦ rw e (fill_words_lem m cp c (suc n) a h)
  | inr e ↦ rw (e, fill_align_lem (update m cp c) (cp + 1) c n a h) (ground arith)
]

fill_long_lem :
    (m : Mem) (s c n a : ℕ) → c < 256 → fill_long m s c n a ≡ (if inside s n a then c else m a)
unfolding fill_long
fill_long_lem m s c n a h = rw (splat_lem c h) (fill_align_lem m s c n a h)

-- `memset` writes the low byte of `c` to each of the `n` bytes from `s` on and to no other, for
-- short areas and for long ones that it fills by words, wherever `s` is aligned.
memset_lem : (m : Mem) (s c n a : ℕ) → memset m s c n a ≡ (if inside s n a then c % 256 else m a)
unfolding memset
memset_lem m s c n a =
    ground (arith, fill_bytes_lem m s (c % 256) n a, fill_long_lem m s (c % 256) n a)
