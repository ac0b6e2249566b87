-- ===== src/Semaphore/Frame.antt =====
-- A signal against its specification.
use mathlib.Core.List.{append_assoc}
use tkernel.Base.{
  ℕ, ◌-◌, ◌≡◌, ◌≢◌, refl, ap, ◌∙◌, Bool, List, [], ◌∷◌, ◌++◌, arith, ◌==◌, if◌then◌else◌,
  Bool-cases, inl, inr, eq_of_==, ne_of_==, ==-refl, ==-ne, ltb, leb,
}
use tkernel.Kernel.{Kernel, Tcb, e_ok, q_sem, has, ta_cnt}
use tkernel.Kernel.Frame.{core}
use tkernel.Kernel.Lists.{NotIn, Distinct, Among, Distinct-middle, remove-middle, Among-NotIn}
use tkernel.Wait.{wait_release_ok}
use tkernel.Wait.Frame.{released_tcb, wait_release_ok-Released}
use tkernel.Semaphore.Hooks.{sub_semcnt}
use tkernel.Semaphore.{sig_loop}

-- What becomes of a count and of the tasks that wait for it.
pub record Outcome : Type 0 where
  pub remaining : ℕ
  pub released : List ℕ
  pub waiting : List ℕ

-- The specification of a signal: each task in turn is released if the count is enough for it. At
-- the first for which it is not, the walk goes on (`skip`, the attribute TA_CNT) or ends. It also
-- ends when nothing is left.
unfoldable pub grant : Bool → (ℕ → ℕ) → ℕ → List ℕ → Outcome
grant skip need n [] = record { remaining = n; released = []; waiting = [] }
grant skip need n (t ∷ l) =
    let past = grant skip need n l in
    let next = grant skip need (n - need t) l in
    if ltb n (need t)
    then if skip
      then record past { waiting = t ∷ past.waiting }
      else record { remaining = n; released = []; waiting = t ∷ l }
    else if leb (n - need t) 0
    then record { remaining = n - need t; released = t ∷ []; waiting = l }
    else record next { released = t ∷ next.released }

pub released-NotIn :
    (skip : Bool) (need : ℕ → ℕ) (n : ℕ) (u : ℕ) (l : List ℕ)
    → NotIn u l
    → NotIn u (grant skip need n l).released
unfolding grant
released-NotIn skip need n u [] h = tt
released-NotIn skip need n u (t ∷ l) h =
    ground
      (arith, released-NotIn skip need n u l h.1, released-NotIn skip need (n - need t) u l h.1)

-- `k'` is `k` after tasks of semaphore `i` have been served with outcome `o`; the tasks `w` in
-- front of them in the wait queue have been passed over.
pub record Served (k k' : Kernel) (i : ℕ) (w : List ℕ) (o : Outcome) : Type 0 where
  pub count : (k'.semcb i).semcnt ≡ o.remaining
  pub maxsem_same : (k'.semcb i).maxsem ≡ (k.semcb i).maxsem
  pub sematr_same : (k'.semcb i).sematr ≡ (k.semcb i).sematr
  pub semid_same : (k'.semcb i).semid ≡ (k.semcb i).semid
  pub queue : k'.que (q_sem i) ≡ w ++ o.waiting
  pub others : (j : ℕ) → i ≢ j → k'.semcb j ≡ k.semcb j
  pub woken : (u : ℕ) → Among u o.released → core (k'.tcb u) ≡ core (released_tcb (k.tcb u) e_ok)
  pub asleep : (u : ℕ) → NotIn u o.released → core (k'.tcb u) ≡ core (k.tcb u)

-- One release with its subtraction.
pub serve_one :
    (k : Kernel) (i t n c : ℕ) (w l : List ℕ)
    → k.que (q_sem i) ≡ w ++ (t ∷ l)
    → Distinct (w ++ (t ∷ l))
    → (k.semcb i).semcnt ≡ n
    → Served k
        (sub_semcnt (wait_release_ok k t) i c)
        i
        w
        (record { remaining = n - c; released = t ∷ []; waiting = l })
unfolding sub_semcnt
serve_one k i t n c w l q d e =
    let r = wait_release_ok-Released k t in
    let same = λ (j : ℕ). ap (λ f. f j) r.semcb_same in
    record {
      count = rw (==-refl i, same i, e) refl;
      maxsem_same = rw (==-refl i, same i) refl;
      sematr_same = rw (==-refl i, same i) refl;
      semid_same = rw (==-refl i, same i) refl;
      queue = r.waits (q_sem i) refl ∙ rw q (remove-middle w t l d);
      others = λ j ne. rw (==-ne i j ne) (same j);
      woken = λ u a. elim a [ inl h ↦ rw (← h) r.tcb_self | inr h ↦ absurd h ];
      asleep = λ u h. r.tcb_other u h.0;
    }

pub Served-cons :
    (k k1 k2 : Kernel) (i t n : ℕ) (w l : List ℕ) (o : Outcome)
    → Served k k1 i w (record { remaining = n; released = t ∷ []; waiting = l })
    → Served k1 k2 i w o
    → NotIn t o.released
    → Served k k2 i w (record o { released = t ∷ o.released })
Served-cons k k1 k2 i t n w l o a b h = record {
  count = b.count;
  maxsem_same = b.maxsem_same ∙ a.maxsem_same;
  sematr_same = b.sematr_same ∙ a.sematr_same;
  semid_same = b.semid_same ∙ a.semid_same;
  queue = b.queue;
  others = λ j ne. b.others j ne ∙ a.others j ne;
  woken = λ u m. elim m [
    | inl e ↦ rw (← e) (b.asleep t h ∙ a.woken t (inl refl))
    | inr m' ↦
        b.woken u m'
        ∙ ap (λ (x : Tcb). core (released_tcb x e_ok))
            (a.asleep u (λ e. Among-NotIn u o.released m' (rw e at h), tt))
  ];
  asleep = λ u h'. b.asleep u h'.1 ∙ a.asleep u (h'.0, tt);
}

Served-skip :
    (k k' : Kernel) (i t : ℕ) (w : List ℕ) (o : Outcome)
    → Served k k' i (w ++ (t ∷ [])) o
    → Served k k' i w (record o { waiting = t ∷ o.waiting })
Served-skip k k' i t w o s = record {
  count = s.count;
  maxsem_same = s.maxsem_same;
  sematr_same = s.sematr_same;
  semid_same = s.semid_same;
  queue = s.queue ∙ append_assoc w (t ∷ []) o.waiting;
  others = s.others;
  woken = s.woken;
  asleep = s.asleep;
}

pub Served-none :
    (k : Kernel) (i n : ℕ) (w l : List ℕ)
    → k.que (q_sem i) ≡ w ++ l
    → (k.semcb i).semcnt ≡ n
    → Served k k i w (record { remaining = n; released = []; waiting = l })
Served-none k i n w l q e = record {
  count = e;
  maxsem_same = refl;
  sematr_same = refl;
  semid_same = refl;
  queue = q;
  others = λ j ne. refl;
  woken = λ u m. absurd m;
  asleep = λ u h. refl;
}

-- What the tasks ask for stays the same.
pub needs_same :
    {k k1 : Kernel} {i n : ℕ} {w l : List ℕ} (t : ℕ) (need : ℕ → ℕ)
    → Served k k1 i w (record { remaining = n; released = t ∷ []; waiting = l })
    → ((u : ℕ) → (k.tcb u).sem_cnt ≡ need u)
    → (u : ℕ) → (k1.tcb u).sem_cnt ≡ need u
needs_same t need s h u = elim (Bool-cases (t == u)) [
  | inl e ↦ ap (λ (x : Tcb). x.sem_cnt) (s.woken u (inl (eq_of_== t u e))) ∙ h u
  | inr e ↦ ap (λ (x : Tcb). x.sem_cnt) (s.asleep u (ne_of_== t u e, tt)) ∙ h u
]

-- The loop of a signal does what the specification says.
pub sig_loop-Served :
    (i : ℕ) (need : ℕ → ℕ) (l : List ℕ) (k : Kernel) (n : ℕ) (w : List ℕ)
    → k.que (q_sem i) ≡ w ++ l
    → Distinct (w ++ l)
    → (k.semcb i).semcnt ≡ n
    → ((u : ℕ) → (k.tcb u).sem_cnt ≡ need u)
    → Served k (sig_loop k i l) i w (grant (has (k.semcb i).sematr ta_cnt) need n l)
unfolding sig_loop grant
sig_loop-Served i need [] k n w q d e h = Served-none k i n w [] q e
sig_loop-Served i need (t ∷ l) k n w q d e h = elim (Bool-cases (ltb n (need t))) [
  | inl short ↦
      rw (e, h t, short)
        (elim (Bool-cases (has (k.semcb i).sematr ta_cnt)) [
          | inl skip ↦ rw skip (
              Served-skip k _ i t w _ (
                sig_loop-Served i need l k n (w ++ (t ∷ [])) (rw append_assoc q) (rw append_assoc d)
                  e h))
          | inr stop ↦ rw stop (Served-none k i n w (t ∷ l) q e)
        ])
  | inr enough ↦
      let s = serve_one k i t n (need t) w l q d e in
      let m = Distinct-middle w t l d in
      rw (e, h t, enough, s.count)
        (elim (Bool-cases (leb (n - need t) 0)) [
          | inl spent ↦ rw spent s
          | inr left ↦ rw left (
              Served-cons k _ _ i t (n - need t) w l _ s
                (rw (s.sematr_same) at (
                  sig_loop-Served i need l (sub_semcnt (wait_release_ok k t) i (need t))
                    (n - need t) w s.queue m.2 s.count (needs_same t need s h)))
                (released-NotIn _ need (n - need t) t l m.1))
        ])
]
