-- ===== src/Handler/Asked.antt =====
-- kernel/tkernel/smp_src/time_calls.c: the processors that `check_handler_queue` asks. There are four
-- processors at most (MAX_PROC).
use tkernel.Base.{
  ℕ, zero, suc, ◌+◌, ◌^◌, ◌≤◌, ◌<◌, ◌≡◌, ◌≢◌, refl, sym, ap, ◌∙◌, arith, Bool, true, false, ◌&&◌,
  ◌||◌, not, Bool-cases, inl, inr, ltb, ltb→lt, ◌==◌, eq_of_==, ne_of_==, if◌then◌else◌, update_ne,
  all_below, all_below_sound, bit_or,
}
use tkernel.Kernel.{Kernel, has}
use tkernel.Handler.{check_loop, check_handler_queue}
use tkernel.Handler.Queues.{raised, checked}

abbrev same : Bool → Bool → Bool
same true c = c
same false c = not c

same_sound : (b c : Bool) → same b c ≡ true → b ≡ c
same_sound true true h = refl
same_sound true false h = cc
same_sound false true h = cc
same_sound false false h = refl

-- With bit `i` set in a number below 16, the other bits are as before.
set_ok : ℕ → ℕ → ℕ → Bool
set_ok a i p =
    ltb (bit_or a (2 ^ i)) 16
    && (has (bit_or a (2 ^ i)) (2 ^ i)
        && ((p == i) || same (has (bit_or a (2 ^ i)) (2 ^ p)) (has a (2 ^ p))))

set_table : all_below 16 (λ a. all_below 4 (λ i. all_below 4 (set_ok a i))) ≡ true
unfolding all_below set_ok
set_table = refl

no_bit : all_below 4 (λ p. not (has 0 (2 ^ p))) ≡ true
unfolding all_below
no_bit = refl

record SetBit (a i p : ℕ) : Type 0 where
  small : bit_or a (2 ^ i) < 16
  here : has (bit_or a (2 ^ i)) (2 ^ i) ≡ true
  other : p ≢ i → has (bit_or a (2 ^ i)) (2 ^ p) ≡ has a (2 ^ p)

and_true : (b c : Bool) → (b && c) ≡ true → (b ≡ true) × (c ≡ true)
and_true true true h = (refl, refl)
and_true true false h = cc
and_true false c h = cc

set_bit : (a i p : ℕ) → a < 16 → i < 4 → p < 4 → SetBit a i p
unfolding set_ok
set_bit a i p la li lp =
    let row =
      all_below_sound 4 (set_ok a i) p
        (all_below_sound 4 (λ j. all_below 4 (set_ok a j)) i
          (all_below_sound 16 (λ b. all_below 4 (λ j. all_below 4 (set_ok b j))) a set_table la) li)
        lp in
    let first = and_true _ _ row in
    let second = and_true _ _ first.1 in
    record {
      small = ltb→lt _ 16 first.0;
      here = second.0;
      other = λ ne. elim (Bool-cases (p == i)) [
        | inl e ↦ absurd (ne (eq_of_== p i e))
        | inr e ↦ same_sound _ _ (
            sym (ap (λ b. b || same (has (bit_or a (2 ^ i)) (2 ^ p)) (has a (2 ^ p))) e) ∙ second.1)
      ];
    }

module _ (n : ℕ) (k : Kernel) (i a : ℕ) where
  -- `assprc` after the round for processor `i`.
  abbrev next : ℕ
  next = if raised (k.obj.handler_queue i) then bit_or a (2 ^ i) else a

  next_small : a < 16 → i < 4 → next < 16
  next_small la li = elim (Bool-cases (raised (k.obj.handler_queue i))) [
    | inl e ↦ rw e (set_bit a i 0 la li (omega arith)).small
    | inr e ↦ rw e la
  ]

  next_other : (p : ℕ) → a < 16 → i < 4 → p < 4 → p ≢ i → has next (2 ^ p) ≡ has a (2 ^ p)
  next_other p la li lp ne = elim (Bool-cases (raised (k.obj.handler_queue i))) [
    | inl e ↦ rw e ((set_bit a i p la li lp).other ne)
    | inr e ↦ rw e refl
  ]

  next_here :
      a < 16 → i < 4 → has a (2 ^ i) ≡ false → has next (2 ^ i) ≡ raised (k.obj.handler_queue i)
  next_here la li h = elim (Bool-cases (raised (k.obj.handler_queue i))) [
    | inl e ↦ rw e (set_bit a i i la li li).here
    | inr e ↦ rw e h
  ]

asked_below :
    (n : ℕ) (k : Kernel) (i a p : ℕ)
    → a < 16
    → i + n ≤ 4
    → p < i
    → p < 4
    → has (check_loop n k i a).1 (2 ^ p) ≡ has a (2 ^ p)
unfolding check_loop
asked_below zero k i a p la le lt lp = refl
asked_below (suc n) k i a p la le lt lp =
    asked_below n _ (i + 1) (next n k i a) p (next_small n k i a la (omega arith)) (omega arith)
      (omega arith) lp
    ∙ next_other n k i a p la (omega arith) lp (λ e. absurd (omega arith))

asked_from :
    (n : ℕ) (k : Kernel) (i a p : ℕ)
    → a < 16
    → i + n ≤ 4
    → i ≤ p
    → p < i + n
    → has a (2 ^ p) ≡ false
    → has (check_loop n k i a).1 (2 ^ p) ≡ raised (k.obj.handler_queue p)
unfolding check_loop
asked_from zero k i a p la le lo hi h = absurd (omega arith)
asked_from (suc n) k i a p la le lo hi h = elim (Bool-cases (p == i)) [
  | inl e ↦
      let here = eq_of_== p i e in
      rw here (
        asked_below n _ (i + 1) (next n k i a) i (next_small n k i a la (omega arith)) (omega arith)
          (omega arith) (omega arith)
        ∙ next_here n k i a la (omega arith) (rw (← here) h))
  | inr e ↦
      let there = ne_of_== p i e in
      asked_from n _ (i + 1) (next n k i a) p (next_small n k i a la (omega arith)) (omega arith)
        (ground (arith, there)) (omega arith)
        (next_other n k i a p la (omega arith) (omega arith) there ∙ h)
      ∙ ap raised
          (update_ne k.obj.handler_queue i p (checked (k.obj.handler_queue i)) (λ s. there (sym s)))
]

pub no_request : (q : ℕ) → q < 4 → has 0 (2 ^ q) ≡ false
no_request q l = elim (Bool-cases (has 0 (2 ^ q))) [
  | inl e ↦ absurd (off (sym (ap not e) ∙ all_below_sound 4 (λ r. not (has 0 (2 ^ r))) q no_bit l))
  | inr e ↦ e
]
  where
    off : false ≢ true
    off e = cc

-- The check asks exactly the processors whose queue is marked and on which none is at work.
pub check_handler_queue-asked :
    (k : Kernel) (p : ℕ)
    → k.num_proc ≤ 4
    → p < k.num_proc
    → has (check_handler_queue k).1 (2 ^ p) ≡ raised (k.obj.handler_queue p)
unfolding check_handler_queue
check_handler_queue-asked k p le lt =
    asked_from k.num_proc k 0 0 p (omega arith) (omega arith) (omega arith) (omega arith)
      (no_request p (omega arith))
