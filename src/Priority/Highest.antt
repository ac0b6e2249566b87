-- ===== src/Priority/Highest.antt =====
-- kernel/tkernel/smp_src/mutex.c, `release_mutex`: the priority of a task that holds mutexes.
use tkernel.Base.{
  ℕ, ◌%◌, ◌^◌, ◌≤◌, ◌<◌, ◌≡◌, refl, ap, ◌∙◌, true, false, none, some, List, [], ◌∷◌, arith, ltb,
  ◌==◌, if◌then◌else◌, Bool-cases, List-cases, inl, inr, ==-refl, eq_of_==, ltb→lt,
}
use tkernel.Kernel.{Kernel, Tcb, is_waiting, q_mtx}
use tkernel.Kernel.Queue.{remove}
use tkernel.Kernel.Frame.{Frame, Frame-refl, Frame-trans, Frame-set, core}
use tkernel.Task.Frame.{ready_queue_insert-Frame}
use tkernel.Task.Unready.{Unqueued, ready_queue_delete-Frame}
use tkernel.ReadyQueue.{ready_queue_delete}
use tkernel.Priority.{
  is_ceiling, is_inherit, mutex_pri, newpri_loop, unlist, highest, release_with, is_ts_ready,
  set_priority, change_on, change_task_priority, release_mutex,
}

-- The priorities that the mutexes of a list ask for: a ceiling, or that of the first task that waits.
abbrev pub waiting_pri : (ℕ → ℕ) → List ℕ → List ℕ → List ℕ
waiting_pri pri [] ds = ds
waiting_pri pri (w ∷ l) ds = pri w ∷ ds

unfoldable pub demands : Kernel → List ℕ → List ℕ
demands k [] = []
demands k (i ∷ l) =
    if is_ceiling (k.obj.mtxcb i)
    then (k.obj.mtxcb i).ceilpri ∷ demands k l
    else if is_inherit (k.obj.mtxcb i)
    then waiting_pri (λ t. (k.tcb t).priority) (k.que (q_mtx i)) (demands k l)
    else demands k l

-- The least of a number and those of a list.
unfoldable pub least : ℕ → List ℕ → ℕ
least n [] = n
least n (d ∷ l) = least (if ltb d n then d else n) l

least-le : (n : ℕ) (l : List ℕ) → least n l ≤ n
unfolding least
least-le n [] = omega arith
least-le n (d ∷ l) = elim (Bool-cases (ltb d n)) [
  | inl lt ↦ rw lt (ground (arith, ltb→lt d n lt, least-le d l))
  | inr ge ↦ rw ge (least-le n l)
]

abbrev pub lower : ℕ → ℕ → ℕ
lower p n = if ltb p n then p else n

pub lower-le : (p n : ℕ) → lower p n ≤ p
lower-le p n = ground arith

pub lower_same : (p n : ℕ) → n ≤ p → lower p n ≡ n
lower_same p n h = ground arith

-- The loop finds the least number, though `pri` keeps the value of the last round where a mutex asks
-- for nothing.
pub newpri_loop-least :
    (k : Kernel) (l : List ℕ) (n pri : ℕ) → n ≤ pri → newpri_loop k n pri l ≡ least n (demands k l)
unfolding newpri_loop mutex_pri demands least
newpri_loop-least k [] n pri le = refl
newpri_loop-least k (i ∷ l) n pri le =
    let step = λ (p : ℕ). newpri_loop-least k l (lower p n) p (lower-le p n) in
    let quiet = step pri ∙ ap (λ m. least m (demands k l)) (lower_same pri n le) in
    elim (Bool-cases (is_ceiling (k.obj.mtxcb i))) [
      | inl c ↦ rw c (step (k.obj.mtxcb i).ceilpri)
      | inr c ↦ elim (Bool-cases (is_inherit (k.obj.mtxcb i))) [
        | inr h ↦ rw (c, h) quiet
        | inl h ↦ elim (List-cases (k.que (q_mtx i))) [
          | inl e ↦ rw (c, h, e) quiet
          | inr (w, r, e) ↦ rw (c, h, e) (step (k.tcb w).priority)
        ]
      ]
    ]

-- With a change of scheduling, the same after the priority of a task is set.
set_priority-Frame :
    {k k' : Kernel} (t p : ℕ) → Frame k k' → Frame (set_priority k t p) (set_priority k' t p)
set_priority-Frame t p f = record {
  waits = f.waits;
  semcb_same = f.semcb_same;
  flgcb_same = f.flgcb_same;
  domcb_same = f.domcb_same;
  mem_same = f.mem_same;
  obj_same = f.obj_same;
  hash_same = f.hash_same;
  timer_same = f.timer_same;
  time_same = f.time_same;
  period_same = f.period_same;
  ctxtsk_same = f.ctxtsk_same;
  num_proc_same = f.num_proc_same;
  tcb_same = λ u. elim (Bool-cases (t == u)) [
    | inl e ↦ rw e (ap (λ (c : Tcb). record c { priority = p % 2 ^ 8 }) (f.tcb_same t))
    | inr e ↦ rw e (f.tcb_same u)
  ];
}

-- The change of the priority of a task that does not wait changes nothing else but the ready queue and
-- the schedule.
pub change_task_priority-Frame :
    (k : Kernel) (t p : ℕ)
    → is_waiting (k.tcb t).state ≡ false
    → Unqueued k t
    → Frame (set_priority k t p) (change_task_priority k t p)
unfolding change_task_priority change_on
change_task_priority-Frame k t p idle out = elim (Bool-cases (is_ts_ready (k.tcb t).state)) [
  | inl ready ↦ rw ready (
      Frame-trans (set_priority-Frame t p (ready_queue_delete-Frame k t out))
        (ready_queue_insert-Frame (set_priority (ready_queue_delete k t) t p) t))
  | inr not_ready ↦ rw (not_ready, idle) (Frame-refl (set_priority k t p))
]

-- The priority that is set is the one that the task has.
set_priority-Frame_same :
    (k : Kernel) (t p : ℕ)
    → p < 2 ^ 8
    → (p == (k.tcb t).priority) ≡ true
    → Frame (set_priority k t p) k
set_priority-Frame_same k t p lt e =
    let same : (k.tcb t).priority ≡ p % 2 ^ 8 =
      let q = eq_of_== p (k.tcb t).priority e in omega arith in
    Frame-set (set_priority k t p) k.que k.bitmap k.klocktsk k.top k.chg k.schedtsk k.tcb
      (λ q h. refl)
      (λ u. elim (Bool-cases (t == u)) [
        | inl e1 ↦
            rw (e1, ← eq_of_== t u e1) (ap (λ q. core (record (k.tcb t) { priority = q })) same)
        | inr e1 ↦ rw e1 refl
      ])

-- What the mutexes of a task ask for, with its base priority.
abbrev pub deserved : Kernel → ℕ → ℕ
deserved k t = least (k.tcb t).bpriority (demands k (k.tcb t).mtxlist)

highest-deserved : (k : Kernel) (t : ℕ) → highest k t ≡ deserved k t
highest-deserved k t =
    newpri_loop-least k (k.tcb t).mtxlist (k.tcb t).bpriority (k.tcb t).bpriority (omega arith)

release_with-Frame :
    (k : Kernel) (t : ℕ)
    → is_waiting (k.tcb t).state ≡ false
    → Unqueued k t
    → (k.tcb t).bpriority < 2 ^ 8
    → Frame (set_priority k t (deserved k t)) (release_with change_task_priority k t none)
unfolding release_with
release_with-Frame k t idle out lt =
    let h = highest-deserved k t in
    let small : deserved k t < 2 ^ 8 =
      let le = least-le (k.tcb t).bpriority (demands k (k.tcb t).mtxlist) in omega arith in
    elim (Bool-cases (deserved k t == (k.tcb t).priority)) [
      | inl e ↦ rw (h, e) (set_priority-Frame_same k t (deserved k t) small e)
      | inr e ↦ rw (h, e) (change_task_priority-Frame k t (deserved k t) idle out)
    ]

unlist_tcb :
    (k : Kernel) (t i : ℕ)
    → (unlist k t (some i)).tcb t ≡ record (k.tcb t) { mtxlist = remove i (k.tcb t).mtxlist }
unlist_tcb k t i = rw (==-refl t) refl

-- `release_mutex`, for a task that does not wait and stands in no wait queue and whose base priority
-- fits the byte that holds it: the mutex leaves the list of the task, the priority of the task becomes
-- the highest, that is the least number, among its base priority and what the mutexes that stay in the
-- list ask for (a ceiling, or with TA_INHERIT the priority of the first task that waits), and nothing
-- else changes but the ready queue and the schedule.
pub release_mutex-Frame :
    (k : Kernel) (t i : ℕ)
    → is_waiting (k.tcb t).state ≡ false
    → Unqueued k t
    → (k.tcb t).bpriority < 2 ^ 8
    → Frame
        (set_priority (unlist k t (some i)) t (deserved (unlist k t (some i)) t))
        (release_mutex k t (some i))
unfolding release_mutex release_with
release_mutex-Frame k t i idle out lt =
    let k1 = unlist k t (some i) in
    release_with-Frame k1 t (ap (λ c. is_waiting c.state) (unlist_tcb k t i) ∙ idle) out
      (rw (unlist_tcb k t i) lt)
