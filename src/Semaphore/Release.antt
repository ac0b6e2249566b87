-- ===== src/Semaphore/Release.antt =====
-- kernel/tkernel/smp_src/semaphore.c, `sem_rel_wai`: when a waiting task has left the queue
-- otherwise than by a signal, the count may be enough for those behind it.
use tkernel.Base.{
  ℕ, ◌-◌, ◌≡◌, refl, ◌∙◌, true, false, List, [], ◌∷◌, arith, ltb, leb, Bool-cases, inl, inr,
}
use tkernel.Kernel.{Kernel, q_sem, has, ta_cnt}
use tkernel.Kernel.Lists.{Distinct}
use tkernel.Domain.{index_of}
use tkernel.Wait.{wait_release_ok}
use tkernel.Semaphore.Hooks.{sub_semcnt, serve_while, sem_chg_pri, sem_rel_wai}
use tkernel.Semaphore.Frame.{
  grant, released-NotIn, Served, serve_one, Served-cons, Served-none, needs_same,
}
use tkernel.Semaphore.Signal.{Asking, Settled, grant-Settled}
use tkernel.Semaphore.Calls.{need_in}
use tkernel.Semaphore.Wake.{Served-need}

-- With nothing left nobody is served.
serve_none :
    (k : Kernel) (i : ℕ) (need : ℕ → ℕ) (l : List ℕ)
    → (k.semcb i).semcnt ≡ 0
    → ((u : ℕ) → (k.tcb u).sem_cnt ≡ need u)
    → Asking need l
    → serve_while k i l ≡ k
unfolding serve_while
serve_none k i need [] e h a = refl
serve_none k i need (t ∷ l) e h a =
    let short : ltb 0 (need t) ≡ true = ground (arith, a.0) in rw (e, h t, short) refl

-- The loop serves the queue as a signal without TA_CNT does.
serve_while-Served :
    (i : ℕ) (need : ℕ → ℕ) (l : List ℕ) (k : Kernel) (n : ℕ)
    → k.que (q_sem i) ≡ l
    → Distinct l
    → (k.semcb i).semcnt ≡ n
    → ((u : ℕ) → (k.tcb u).sem_cnt ≡ need u)
    → Asking need l
    → Served k (serve_while k i l) i [] (grant false need n l)
unfolding serve_while grant
serve_while-Served i need [] k n q d e h a = Served-none k i n [] [] q e
serve_while-Served i need (t ∷ l) k n q d e h a = elim (Bool-cases (ltb n (need t))) [
  | inl short ↦ rw (e, h t, short) (Served-none k i n [] (t ∷ l) q e)
  | inr enough ↦
      let k1 = sub_semcnt (wait_release_ok k t) i (need t) in
      let s = serve_one k i t n (need t) [] l q d e in
      let same = needs_same t need s h in
      rw (e, h t, enough)
        (elim (Bool-cases (leb (n - need t) 0)) [
          | inl spent ↦
              let z : n - need t ≡ 0 = ground arith in
              rw (spent, serve_none k1 i need l (s.count ∙ z) same a.1) s
          | inr left ↦ rw left (
              Served-cons k _ _ i t (n - need t) [] l _ s
                (serve_while-Served i need l k1 (n - need t) s.queue d.1 s.count same a.1)
                (released-NotIn false need (n - need t) t l d.0))
        ])
]

-- Without TA_CNT, on a wait queue in which no task stands twice and each asked for something,
-- `sem_rel_wai` serves the queue as the specification of a signal of 0 says: as many tasks from its
-- head as the count is enough for are released with E_OK. The count is then too small for the task
-- that is first.
pub sem_rel_wai-Served :
    (k : Kernel) (t : ℕ)
    → has (k.semcb (index_of (k.tcb t).wid)).sematr ta_cnt ≡ false
    → Distinct (k.que (q_sem (index_of (k.tcb t).wid)))
    → Asking (need_in k) (k.que (q_sem (index_of (k.tcb t).wid)))
    → Served k (sem_rel_wai k t) (index_of (k.tcb t).wid) [] (
        grant false
          (need_in k)
          (k.semcb (index_of (k.tcb t).wid)).semcnt
          (k.que (q_sem (index_of (k.tcb t).wid))))
      × Settled false
          (need_in (sem_rel_wai k t))
          ((sem_rel_wai k t).semcb (index_of (k.tcb t).wid)).semcnt
          ((sem_rel_wai k t).que (q_sem (index_of (k.tcb t).wid)))
unfolding sem_rel_wai sem_chg_pri
sem_rel_wai-Served k t c d a =
    let i = index_of (k.tcb t).wid in
    let s =
      serve_while-Served i (need_in k) (k.que (q_sem i)) k (k.semcb i).semcnt refl d refl
        (λ u. refl) a in
    rw c (
      s,
      rw (Served-need s, s.count, s.queue) (grant-Settled false (need_in k) _ (k.que (q_sem i)) a),
    )
