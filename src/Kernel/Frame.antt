-- ===== src/Kernel/Frame.antt =====
-- What the operations of the ready queue and of the schedule leave alone.
use tkernel.Base.{ℕ, ◌≡◌, refl, ◌∙◌, Bool, true, false, List, Option}
use tkernel.Kernel.{Kernel, Tcb, Que, q_rdy}

abbrev pub is_rdy : Que → Bool
is_rdy (q_rdy p) = true
is_rdy _ = false

-- A TCB without the two fields that scheduling writes.
abbrev pub core : Tcb → Tcb
core c = record c { slicecnt = 0; klockwait = false }

-- The wait queues, the objects, the timer and all else of the tasks are as they were.
pub record Frame (k k' : Kernel) : Type 0 where
  pub waits : (q : Que) → is_rdy q ≡ false → k'.que q ≡ k.que q
  pub semcb_same : k'.semcb ≡ k.semcb
  pub flgcb_same : k'.flgcb ≡ k.flgcb
  pub domcb_same : k'.domcb ≡ k.domcb
  pub mem_same : k'.mem ≡ k.mem
  pub obj_same : k'.obj ≡ k.obj
  pub hash_same : k'.hash_key ≡ k.hash_key
  pub timer_same : k'.timer_queue ≡ k.timer_queue
  pub time_same : k'.current_time ≡ k.current_time
  pub period_same : k'.timer_period ≡ k.timer_period
  pub ctxtsk_same : k'.ctxtsk ≡ k.ctxtsk
  pub num_proc_same : k'.num_proc ≡ k.num_proc
  pub tcb_same : (t : ℕ) → core (k'.tcb t) ≡ core (k.tcb t)

pub Frame-refl : (k : Kernel) → Frame k k
Frame-refl k = record {
  waits = λ q h. refl;
  semcb_same = refl;
  flgcb_same = refl;
  domcb_same = refl;
  mem_same = refl;
  obj_same = refl;
  hash_same = refl;
  timer_same = refl;
  time_same = refl;
  period_same = refl;
  ctxtsk_same = refl;
  num_proc_same = refl;
  tcb_same = λ t. refl;
}

pub Frame-trans : {k k' k'' : Kernel} → Frame k k' → Frame k' k'' → Frame k k''
Frame-trans f g = record {
  waits = λ q h. g.waits q h ∙ f.waits q h;
  semcb_same = g.semcb_same ∙ f.semcb_same;
  flgcb_same = g.flgcb_same ∙ f.flgcb_same;
  domcb_same = g.domcb_same ∙ f.domcb_same;
  mem_same = g.mem_same ∙ f.mem_same;
  obj_same = g.obj_same ∙ f.obj_same;
  hash_same = g.hash_same ∙ f.hash_same;
  timer_same = g.timer_same ∙ f.timer_same;
  time_same = g.time_same ∙ f.time_same;
  period_same = g.period_same ∙ f.period_same;
  ctxtsk_same = g.ctxtsk_same ∙ f.ctxtsk_same;
  num_proc_same = g.num_proc_same ∙ f.num_proc_same;
  tcb_same = λ t. g.tcb_same t ∙ f.tcb_same t;
}

-- A change of the ready queue, of `schedtsk` and of the TCBs.
pub Frame-set :
    (k : Kernel) (que' : Que → List ℕ) (bitmap' : ℕ → ℕ) (klocktsk' : Option ℕ)
    (top' : List (Option ℕ)) (chg' : Bool) (schedtsk' : ℕ → Option ℕ) (tcb' : ℕ → Tcb)
    → ((q : Que) → is_rdy q ≡ false → que' q ≡ k.que q)
    → ((t : ℕ) → core (tcb' t) ≡ core (k.tcb t))
    → Frame k (record k {
      que = que';
      bitmap = bitmap';
      klocktsk = klocktsk';
      top = top';
      chg = chg';
      schedtsk = schedtsk';
      tcb = tcb';
    })
Frame-set k que' bitmap' klocktsk' top' chg' schedtsk' tcb' w c = record {
  waits = w;
  semcb_same = refl;
  flgcb_same = refl;
  domcb_same = refl;
  mem_same = refl;
  obj_same = refl;
  hash_same = refl;
  timer_same = refl;
  time_same = refl;
  period_same = refl;
  ctxtsk_same = refl;
  num_proc_same = refl;
  tcb_same = c;
}
