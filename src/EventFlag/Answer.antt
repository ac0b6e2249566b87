-- ===== src/EventFlag/Answer.antt =====
-- kernel/tkernel/smp_src/eventflag.c, `_tk_set_flg`: the specification of the loop over the waiting
-- tasks, and its single steps.
use mathlib.Core.Path.{fun_ext}
use mathlib.Core.List.{append_assoc}
use tkernel.Base.{
  ℕ, ◌≡◌, ◌≢◌, refl, ap, ◌∙◌, Bool, not, ◌&&◌, ◌||◌, List, [], ◌∷◌, ◌++◌, ◌==◌, if◌then◌else◌,
  Bool-cases, inl, inr, eq_of_==, ne_of_==, ==-refl, ==-ne,
}
use tkernel.Str.{Mem, store_word}
use tkernel.Kernel.{Kernel, Tcb, Flgcb, e_ok, q_flg, has}
use tkernel.Kernel.Frame.{core}
use tkernel.Kernel.Lists.{NotIn, Distinct, Among, remove-middle, Among-NotIn}
use tkernel.Wait.{wait_release_ok}
use tkernel.Wait.Frame.{Released, released_tcb}
use tkernel.EventFlag.{eventflag_cond, and_not, twf_clr, twf_bitclr, set_flgptn}

-- What the waiting tasks ask for: the pattern, the mode and the address of the answer.
pub record Asked : Type 0 where
  pub waiptn : ℕ
  pub wfmode : ℕ
  pub p_flgptn : ℕ

abbrev pub asked_by : Tcb → Asked
asked_by c = record { waiptn = c.flg_waiptn; wfmode = c.flg_wfmode; p_flgptn = c.flg_p_flgptn }

-- What becomes of a pattern, of the memory and of the tasks that wait.
pub record FlagOutcome : Type 0 where
  pub pattern : ℕ
  pub memory : Mem
  pub released : List ℕ
  pub waiting : List ℕ

-- The pattern after the bits that a released task asked for are cleared, if it wants that.
abbrev pub after_bitclr : ℕ → Asked → ℕ
after_bitclr ptn a = if has a.wfmode twf_bitclr then and_not ptn a.waiptn else ptn

-- Whether the pattern is cleared as a whole, and the walk over the tasks ends.
abbrev pub all_cleared : ℕ → Asked → Bool
all_cleared ptn a = has a.wfmode twf_clr || (has a.wfmode twf_bitclr && and_not ptn a.waiptn == 0)

-- The specification: each task in turn whose condition the pattern meets is told the pattern and
-- released. The others stay where they are. The walk ends where the pattern is cleared as a whole.
unfoldable pub answer : (ℕ → Asked) → Mem → ℕ → List ℕ → FlagOutcome
answer ask m ptn [] = record { pattern = ptn; memory = m; released = []; waiting = [] }
answer ask m ptn (t ∷ l) =
    let past = answer ask m ptn l in
    let told = store_word m (ask t).p_flgptn ptn in
    let next = answer ask told (after_bitclr ptn (ask t)) l in
    if not (eventflag_cond ptn (ask t).waiptn (ask t).wfmode)
    then record past { waiting = t ∷ past.waiting }
    else if all_cleared ptn (ask t)
    then record { pattern = 0; memory = told; released = t ∷ []; waiting = l }
    else record next { released = t ∷ next.released }

-- `k'` is `k` after tasks of event flag `i` have been answered with outcome `o`; the tasks `w` in
-- front of them in the wait queue have been passed over.
pub record Answered (k k' : Kernel) (i : ℕ) (w : List ℕ) (o : FlagOutcome) : Type 0 where
  pub pattern : (k'.flgcb i).flgptn ≡ o.pattern
  pub memory : k'.mem ≡ o.memory
  pub queue : k'.que (q_flg i) ≡ w ++ o.waiting
  pub others : (j : ℕ) → i ≢ j → k'.flgcb j ≡ k.flgcb j
  pub semcb_same : k'.semcb ≡ k.semcb
  pub woken : (u : ℕ) → Among u o.released → core (k'.tcb u) ≡ core (released_tcb (k.tcb u) e_ok)
  pub asleep : (u : ℕ) → NotIn u o.released → core (k'.tcb u) ≡ core (k.tcb u)

pub released-NotIn :
    (ask : ℕ → Asked) (u : ℕ) (l : List ℕ) (m : Mem) (ptn : ℕ)
    → NotIn u l
    → NotIn u (answer ask m ptn l).released
unfolding answer
released-NotIn ask u [] m ptn h = tt
released-NotIn ask u (t ∷ l) m ptn h =
    elim (Bool-cases (eventflag_cond ptn (ask t).waiptn (ask t).wfmode)) [
      | inr stays ↦ rw stays (released-NotIn ask u l m ptn h.1)
      | inl met ↦ elim (Bool-cases (all_cleared ptn (ask t))) [
        | inl ends ↦ rw (met, ends) (h.0, tt)
        | inr on ↦ rw (met, on) (h.0, released-NotIn ask u l _ _ h.1)
      ]
    ]

-- One release, and the pattern `n` that it leaves.
pub answer_one :
    (k k2 : Kernel) (i t n : ℕ) (m : Mem) (w l : List ℕ)
    → k.que (q_flg i) ≡ w ++ (t ∷ l)
    → Distinct (w ++ (t ∷ l))
    → Released (record k { mem = m }) (wait_release_ok (record k { mem = m }) t) t e_ok
    → k2 ≡ set_flgptn (wait_release_ok (record k { mem = m }) t) i n
    → Answered k k2 i w (record { pattern = n; memory = m; released = t ∷ []; waiting = l })
answer_one k k2 i t n m w l q d r e = rw e (record {
  pattern = rw (==-refl i) refl;
  memory = r.mem_same;
  queue = r.waits (q_flg i) refl ∙ rw q (remove-middle w t l d);
  others = λ j ne. rw (==-ne i j ne) (ap (λ f. f j) r.flgcb_same);
  semcb_same = r.semcb_same;
  woken = λ u a. elim a [ inl h ↦ rw (← h) r.tcb_self | inr h ↦ absurd h ];
  asleep = λ u h. r.tcb_other u h.0;
})

pub Answered-cons :
    (k k1 k2 : Kernel) (i t n : ℕ) (m : Mem) (w l : List ℕ) (o : FlagOutcome)
    → Answered k k1 i w (record { pattern = n; memory = m; released = t ∷ []; waiting = l })
    → Answered k1 k2 i w o
    → NotIn t o.released
    → Answered k k2 i w (record o { released = t ∷ o.released })
Answered-cons k k1 k2 i t n m w l o a b h = record {
  pattern = b.pattern;
  memory = b.memory;
  queue = b.queue;
  others = λ j ne. b.others j ne ∙ a.others j ne;
  semcb_same = b.semcb_same ∙ a.semcb_same;
  woken = λ u m'. elim m' [
    | inl e ↦ rw (← e) (b.asleep t h ∙ a.woken t (inl refl))
    | inr m'' ↦
        b.woken u m''
        ∙ ap (λ (x : Tcb). core (released_tcb x e_ok))
            (a.asleep u (λ e. Among-NotIn u o.released m'' (rw e at h), tt))
  ];
  asleep = λ u h'. b.asleep u h'.1 ∙ a.asleep u (h'.0, tt);
}

pub Answered-skip :
    (k k' : Kernel) (i t : ℕ) (w : List ℕ) (o : FlagOutcome)
    → Answered k k' i (w ++ (t ∷ [])) o
    → Answered k k' i w (record o { waiting = t ∷ o.waiting })
Answered-skip k k' i t w o s = record {
  pattern = s.pattern;
  memory = s.memory;
  queue = s.queue ∙ append_assoc w (t ∷ []) o.waiting;
  others = s.others;
  semcb_same = s.semcb_same;
  woken = s.woken;
  asleep = s.asleep;
}

-- One release that leaves the pattern.
pub answer_kept :
    (k : Kernel) (i t : ℕ) (m : Mem) (w l : List ℕ)
    → k.que (q_flg i) ≡ w ++ (t ∷ l)
    → Distinct (w ++ (t ∷ l))
    → Released (record k { mem = m }) (wait_release_ok (record k { mem = m }) t) t e_ok
    → Answered k
        (wait_release_ok (record k { mem = m }) t)
        i
        w
        (record { pattern = (k.flgcb i).flgptn; memory = m; released = t ∷ []; waiting = l })
answer_kept k i t m w l q d r = record {
  pattern = ap (λ f. (f i).flgptn) r.flgcb_same;
  memory = r.mem_same;
  queue = r.waits (q_flg i) refl ∙ rw q (remove-middle w t l d);
  others = λ j ne. ap (λ f. f j) r.flgcb_same;
  semcb_same = r.semcb_same;
  woken = λ u a. elim a [ inl h ↦ rw (← h) r.tcb_self | inr h ↦ absurd h ];
  asleep = λ u h. r.tcb_other u h.0;
}

-- What the tasks ask for stays the same.
pub asked_same :
    {k k1 : Kernel} {i n : ℕ} {m : Mem} {w l : List ℕ} (t : ℕ) (ask : ℕ → Asked)
    → Answered k k1 i w (record { pattern = n; memory = m; released = t ∷ []; waiting = l })
    → ((u : ℕ) → asked_by (k.tcb u) ≡ ask u)
    → (u : ℕ) → asked_by (k1.tcb u) ≡ ask u
asked_same t ask s h u = elim (Bool-cases (t == u)) [
  | inl e ↦ ap (λ (x : Tcb). asked_by x) (s.woken u (inl (eq_of_== t u e))) ∙ h u
  | inr e ↦ ap (λ (x : Tcb). asked_by x) (s.asleep u (ne_of_== t u e, tt)) ∙ h u
]

pub nobody_left :
    (k : Kernel) (i : ℕ) (w : List ℕ)
    → k.que (q_flg i) ≡ w ++ []
    → Answered k k i w
        (record { pattern = (k.flgcb i).flgptn; memory = k.mem; released = []; waiting = [] })
nobody_left k i w q = record {
  pattern = refl;
  memory = refl;
  queue = q;
  others = λ j ne. refl;
  semcb_same = refl;
  woken = λ u m. absurd m;
  asleep = λ u h. refl;
}

pub set_twice : (k : Kernel) (i a b : ℕ) → set_flgptn (set_flgptn k i a) i b ≡ set_flgptn k i b
set_twice k i a b =
    ap (λ (f : ℕ → Flgcb). record k { flgcb = f })
      (fun_ext
        (λ j. elim (Bool-cases (i == j)) [ inl e ↦ rw (e, ==-refl i) refl | inr e ↦ rw e refl ]))
