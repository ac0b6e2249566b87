-- ===== src/Wait/Delete.antt =====
-- kernel/tkernel/smp_src/wait.c, `wait_delete`: every task that waits for a deleted object is
-- released with E_DLT.
use tkernel.Base.{ℕ, ◌≡◌, inl, inr, refl, ap, ◌∙◌, false, List, [], ◌∷◌}
use tkernel.Kernel.{Kernel, Tcb, e_dlt, Que}
use tkernel.Kernel.Frame.{is_rdy, core}
use tkernel.Kernel.Lists.{NotIn, Distinct, Among, Among-NotIn, remove-middle}
use tkernel.Wait.Frame.{Released, wait_release-Released, released_tcb}
use tkernel.Wait.{release_all, wait_delete}

-- `k'` is `k` after the tasks `l` of the wait queue `q` have been released with E_DLT.
pub record Emptied (k k' : Kernel) (q : Que) (l : List ℕ) : Type 0 where
  pub queue : k'.que q ≡ []
  pub semcb_same : k'.semcb ≡ k.semcb
  pub flgcb_same : k'.flgcb ≡ k.flgcb
  pub domcb_same : k'.domcb ≡ k.domcb
  pub woken : (u : ℕ) → Among u l → core (k'.tcb u) ≡ core (released_tcb (k.tcb u) e_dlt)
  pub asleep : (u : ℕ) → NotIn u l → core (k'.tcb u) ≡ core (k.tcb u)

Emptied-cons :
    (k k1 k' : Kernel) (q : Que) (t : ℕ) (l : List ℕ)
    → Released k k1 t e_dlt
    → Emptied k1 k' q l
    → NotIn t l
    → Emptied k k' q (t ∷ l)
Emptied-cons k k1 k' q t l r s h = record {
  queue = s.queue;
  semcb_same = s.semcb_same ∙ r.semcb_same;
  flgcb_same = s.flgcb_same ∙ r.flgcb_same;
  domcb_same = s.domcb_same ∙ r.domcb_same;
  woken = λ u m. elim m [
    | inl e ↦ rw (← e) (s.asleep t h ∙ r.tcb_self)
    | inr m' ↦
        s.woken u m'
        ∙ ap (λ (x : Tcb). core (released_tcb x e_dlt))
            (r.tcb_other u (λ e. Among-NotIn u l m' (rw e at h)))
  ];
  asleep = λ u h'. s.asleep u h'.1 ∙ r.tcb_other u h'.0;
}

release_all-Emptied :
    (q : Que) (l : List ℕ) (k : Kernel)
    → is_rdy q ≡ false
    → k.que q ≡ l
    → Distinct l
    → Emptied k (release_all k l) q l
unfolding release_all
release_all-Emptied q [] k n e d = record {
  queue = e;
  semcb_same = refl;
  flgcb_same = refl;
  domcb_same = refl;
  woken = λ u m. absurd m;
  asleep = λ u h. refl;
}
release_all-Emptied q (t ∷ l) k n e d =
    let r = wait_release-Released k t e_dlt in
    Emptied-cons k _ _ q t l r
      (release_all-Emptied q l _ n (r.waits q n ∙ rw e (remove-middle [] t l d)) d.1) d.0

-- `wait_delete` empties the wait queue of an object: each task in it leaves the wait with E_DLT,
-- READY or, if it was suspended too, SUSPENDED; every other task and all objects are as they were,
-- up to the two fields that scheduling writes.
pub wait_delete-Emptied :
    (k : Kernel) (q : Que)
    → is_rdy q ≡ false
    → Distinct (k.que q)
    → Emptied k (wait_delete k q) q (k.que q)
unfolding wait_delete
wait_delete-Emptied k q n d = release_all-Emptied q (k.que q) k n refl d
