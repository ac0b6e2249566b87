-- ===== src/EventFlag/Set.antt =====
-- kernel/tkernel/smp_src/eventflag.c, `_tk_set_flg`: the loop over the waiting tasks against its
-- specification.
use mathlib.Core.List.{append_assoc}
use tkernel.Base.{ℕ, ◌≡◌, refl, List, [], ◌∷◌, ◌++◌, ◌==◌, Bool-cases, inl, inr, eq_of_==}
use tkernel.Str.{Mem, store_word}
use tkernel.Kernel.{Kernel, q_flg, has}
use tkernel.Kernel.Lists.{Distinct, Distinct-middle}
use tkernel.Wait.{wait_release_ok}
use tkernel.Wait.Frame.{wait_release_ok-Released}
use tkernel.EventFlag.{eventflag_cond, and_not, twf_clr, twf_bitclr, set_flgptn, set_loop}
use tkernel.EventFlag.Answer.{
  Asked, asked_by, answer, Answered, released-NotIn, answer_one, Answered-cons, Answered-skip,
  answer_kept, asked_same, nobody_left, set_twice,
}

-- The loop of `_tk_set_flg` does what the specification says.
pub set_loop-Answered :
    (i : ℕ) (ask : ℕ → Asked) (l : List ℕ) (k : Kernel) (m : Mem) (ptn : ℕ) (w : List ℕ)
    → k.que (q_flg i) ≡ w ++ l
    → Distinct (w ++ l)
    → k.mem ≡ m
    → (k.flgcb i).flgptn ≡ ptn
    → ((u : ℕ) → asked_by (k.tcb u) ≡ ask u)
    → Answered k (set_loop k i l) i w (answer ask m ptn l)
unfolding set_loop answer
set_loop-Answered i ask [] k m ptn w q d km kp h = rw (← km, ← kp) (nobody_left k i w q)
set_loop-Answered i ask (t ∷ l) k m ptn w q d km kp h =
    let p = (k.flgcb i).flgptn in
    let c = asked_by (k.tcb t) in
    let told = store_word k.mem c.p_flgptn p in
    let k1 = wait_release_ok (record k { mem = told }) t in
    let r = wait_release_ok-Released (record k { mem = told }) t in
    let parts = Distinct-middle w t l d in
    rw (← km, ← kp, ← h t)
      (elim (Bool-cases (eventflag_cond p c.waiptn c.wfmode)) [
        | inr stays ↦ rw stays (
            Answered-skip k _ i t w _ (
              set_loop-Answered i ask l k k.mem p (w ++ (t ∷ [])) (rw append_assoc q)
                (rw append_assoc d) refl refl h))
        | inl met ↦ elim (Bool-cases (has c.wfmode twf_bitclr)) [
          | inl bits ↦
              let n = and_not p c.waiptn in
              let s = answer_one k (set_flgptn k1 i n) i t n told w l q d r refl in
              elim (Bool-cases (n == 0)) [
                | inl empty ↦ elim (Bool-cases (has c.wfmode twf_clr)) [
                  | inl clr ↦
                      rw (met, bits, clr, empty)
                        (answer_one k _ i t 0 told w l q d r (rw (eq_of_== n 0 empty) refl))
                  | inr keep ↦
                      rw (met, bits, keep, empty)
                        (answer_one k _ i t 0 told w l q d r (rw (eq_of_== n 0 empty) refl))
                ]
                | inr some_left ↦ elim (Bool-cases (has c.wfmode twf_clr)) [
                  | inl clr ↦
                      rw (met, bits, clr, some_left)
                        (answer_one k _ i t 0 told w l q d r (set_twice k1 i n 0))
                  | inr keep ↦
                      rw (met, bits, keep, some_left)
                        (Answered-cons k _ _ i t n told w l _ s
                          (set_loop-Answered i ask l (set_flgptn k1 i n) told n w s.queue parts.2
                            s.memory s.pattern (asked_same t ask s h))
                          (released-NotIn ask t l told n parts.1))
                ]
              ]
          | inr whole ↦
              let s = answer_kept k i t told w l q d r in
              elim (Bool-cases (has c.wfmode twf_clr)) [
                | inl clr ↦ rw (met, whole, clr) (answer_one k _ i t 0 told w l q d r refl)
                | inr keep ↦
                    rw (met, whole, keep)
                      (Answered-cons k _ _ i t p told w l _ s
                        (set_loop-Answered i ask l k1 told p w s.queue parts.2 s.memory s.pattern
                          (asked_same t ask s h))
                        (released-NotIn ask t l told p parts.1))
              ]
        ]
      ])
