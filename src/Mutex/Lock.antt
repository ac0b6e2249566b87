-- ===== src/Mutex/Lock.antt =====
-- kernel/tkernel/smp_src/mutex.c: who gets a mutex that is unlocked.
use tkernel.Base.{
  ℕ, ◌^◌, ◌<◌, ◌≡◌, ◌≢◌, refl, ap, ◌∙◌, true, false, ◌&&◌, none, some, List, [], ◌∷◌, ltb,
  Bool-cases, inl, inr, ==-refl, ==-ne,
}
use tkernel.Kernel.{Kernel, Tcb, e_ok, Que, q_mtx}
use tkernel.Kernel.Queue.{remove}
use tkernel.Kernel.Frame.{Frame, Frame-refl, core, is_rdy}
use tkernel.Kernel.Lists.{NotIn, Distinct, remove-NotIn}
use tkernel.Task.Frame.{update_schedtsk-Frame}
use tkernel.Wait.{wait_release_ok}
use tkernel.Wait.Frame.{released_tcb, wait_release_ok-Released}
use tkernel.Domain.{chk_id, index_of, in_indp}
use tkernel.Schedule.Assign.{same_task}
use tkernel.Priority.{is_ceiling, set_priority, unlist, release_mutex}
use tkernel.Priority.Stays.{Out, trim}
use tkernel.Priority.Highest.{deserved, change_task_priority-Frame, release_mutex-Frame}
use tkernel.Release.Ended.{Released-Out}
use tkernel.Mutex.{
  mtx_access, raise_to_ceiling, take_mutex, hand_over, unlock, unl_mtx_body, tk_unl_mtx,
}

-- Of the tasks only the priority of `t` may be another, and the objects and wait queues are the same.
record Raised (k k' : Kernel) (t : ℕ) : Type 0 where
  waits : (q : Que) → is_rdy q ≡ false → k'.que q ≡ k.que q
  obj_same : k'.obj ≡ k.obj
  self : trim (k'.tcb t) ≡ trim (k.tcb t)
  others : (u : ℕ) → t ≢ u → core (k'.tcb u) ≡ core (k.tcb u)

raise_to_ceiling-Raised : (k : Kernel) (t i : ℕ) → Out t k → Raised k (raise_to_ceiling k t i) t
unfolding raise_to_ceiling
raise_to_ceiling-Raised k t i out =
    let cb = k.obj.mtxcb i in
    elim (Bool-cases (is_ceiling cb && ltb cb.ceilpri (k.tcb t).priority)) [
      | inl e ↦
          let f = change_task_priority-Frame k t cb.ceilpri out.0 out.1 in
          rw e (record {
            waits = f.waits;
            obj_same = f.obj_same;
            self = ap (λ c. trim c) (f.tcb_same t) ∙ rw (==-refl t) refl;
            others = λ u ne. f.tcb_same u ∙ rw (==-ne t u ne) refl;
          })
      | inr e ↦
          rw e (record { waits = λ q h. refl; obj_same = refl; self = refl; others = λ u ne. refl })
    ]

-- What the end of the lock of mutex `i` does with the tasks `l` that wait for it: the first gets the
-- lock and leaves the queue, released with E_OK, and the mutex is the first in its list; the others
-- stay in the queue. With nobody waiting the mutex is free. No other task changes, but for what
-- scheduling writes.
abbrev pub Handed : Kernel → Kernel → ℕ → List ℕ → Type 0
Handed k k' i [] =
    ((k'.obj.mtxcb i).mtxtsk ≡ none)
    × (k'.que (q_mtx i) ≡ [])
    × ((u : ℕ) → core (k'.tcb u) ≡ core (k.tcb u))
Handed k k' i (w ∷ l) =
    ((k'.obj.mtxcb i).mtxtsk ≡ some w)
    × (k'.que (q_mtx i) ≡ l)
    × (trim (k'.tcb w)
        ≡ trim (record (released_tcb (k.tcb w) e_ok) { mtxlist = i ∷ (k.tcb w).mtxlist }))
    × ((u : ℕ) → w ≢ u → core (k'.tcb u) ≡ core (k.tcb u))

take_mutex-Out : (k : Kernel) (t i : ℕ) → Out t k → Out t (take_mutex k t i)
take_mutex-Out k t i o = (rw (==-refl t) o.0, o.1)

gone : (w : ℕ) (l : List ℕ) → NotIn w l → remove w (w ∷ l) ≡ l
unfolding remove
gone w l n = rw (==-refl w) (remove-NotIn w l n)

hand_over-Handed :
    (k : Kernel) (i : ℕ) (l : List ℕ)
    → k.que (q_mtx i) ≡ l
    → Distinct l
    → Handed k (hand_over k i) i l
unfolding hand_over
hand_over-Handed k i [] e d = rw (hand_over, e) (rw (==-refl i) refl, e, λ u. refl)
hand_over-Handed k i (w ∷ l) e d =
    let k2 = wait_release_ok k w in
    let r = wait_release_ok-Released k w in
    let k3 = take_mutex k2 w i in
    let a = raise_to_ceiling-Raised k3 w i (take_mutex-Out k2 w i (Released-Out r)) in
    rw (hand_over, e)
      (
        ap (λ o. (o.mtxcb i).mtxtsk) a.obj_same ∙ rw (==-refl i) refl,
        a.waits (q_mtx i) refl ∙ r.waits (q_mtx i) refl ∙ rw e (gone w l d.0),
        a.self
            ∙ rw (==-refl w)
                (ap (λ (c : Tcb). trim (record c { mtxlist = i ∷ c.mtxlist })) r.tcb_self),
        λ u ne. a.others u ne ∙ rw (==-ne w u ne) (r.tcb_other u ne),
      )

-- The tasks and queues before and after may be looked at up to what scheduling writes.
Handed-Frame :
    (k0 k k' k'' : Kernel) (i : ℕ) (l : List ℕ)
    → Frame k0 k
    → Handed k k' i l
    → Frame k' k''
    → Handed k0 k'' i l
Handed-Frame k0 k k' k'' i [] f h g = (
  ap (λ o. (o.mtxcb i).mtxtsk) g.obj_same ∙ h.0,
  g.waits (q_mtx i) refl ∙ h.1,
  λ u. g.tcb_same u ∙ h.2 u ∙ f.tcb_same u,
)
Handed-Frame k0 k k' k'' i (w ∷ l) f h g = (
  ap (λ o. (o.mtxcb i).mtxtsk) g.obj_same ∙ h.0,
  g.waits (q_mtx i) refl ∙ h.1,
  ap (λ c. trim c) (g.tcb_same w)
      ∙ h.2
      ∙ ap (λ (c : Tcb). trim (record (released_tcb c e_ok) { mtxlist = i ∷ c.mtxlist }))
          (f.tcb_same w),
  λ u ne. g.tcb_same u ∙ h.3 u ne ∙ f.tcb_same u,
)

-- The state in which the mutex has left the list of the task, and the task has the priority that it
-- then deserves.
abbrev pub let_go : Kernel → ℕ → ℕ → Kernel
let_go k t i = set_priority (unlist k t (some i)) t (deserved (unlist k t (some i)) t)

unlock-Handed :
    (k : Kernel) (t i : ℕ)
    → same_task (k.obj.mtxcb i).mtxtsk (some t) ≡ true
    → Out t k
    → (k.tcb t).bpriority < 2 ^ 8
    → Distinct (k.que (q_mtx i))
    → ((unlock k t i).1 ≡ e_ok) × Handed (let_go k t i) (unlock k t i).0 i (k.que (q_mtx i))
unfolding unlock
unlock-Handed k t i owner out lt d =
    let k1 = release_mutex k t (some i) in
    let f = release_mutex-Frame k t i out.0 out.1 lt in
    let h = hand_over-Handed k1 i (k.que (q_mtx i)) (f.waits (q_mtx i) refl) d in
    rw owner (
      refl,
      Handed-Frame (let_go k t i) k1 (hand_over k1 i) (hand_over k1 i) i (k.que (q_mtx i)) f h
          (Frame-refl (hand_over k1 i)),
    )

-- The conditions under which `_tk_unl_mtx` unlocks: the ID is in range, the call is not made in a task
-- independent part, the mutex exists and may be accessed, and the running task `t`, which waits for
-- nothing, has locked it.
pub record Unlockable (k : Kernel) (prid t mtxid : ℕ) : Type 0 where
  pub id_ok : chk_id k k.obj.max_mtxid mtxid ≡ true
  pub in_task : in_indp k prid ≡ false
  pub running : k.ctxtsk prid ≡ some t
  pub access : mtx_access k prid mtxid ≡ e_ok
  pub owner : same_task (k.obj.mtxcb (index_of mtxid)).mtxtsk (some t) ≡ true
  pub active : Out t k
  pub base : (k.tcb t).bpriority < 2 ^ 8

-- An unlocking that is accepted, with a wait queue in which no task stands twice, returns E_OK; the
-- mutex leaves the list of the running task, whose priority becomes the highest among its base priority
-- and what its other mutexes ask for; and the first task that waits gets the mutex: it leaves the queue,
-- released with E_OK and with the mutex first in its list, and the others stay in the queue in their
-- order. With nobody waiting the mutex is free. No other task changes, but for what scheduling writes.
pub tk_unl_mtx-Handed :
    (k : Kernel) (prid t mtxid : ℕ)
    → Unlockable k prid t mtxid
    → Distinct (k.que (q_mtx (index_of mtxid)))
    → ((tk_unl_mtx k prid mtxid).1 ≡ e_ok)
      × Handed
          (let_go k t (index_of mtxid))
          (tk_unl_mtx k prid mtxid).0
          (index_of mtxid)
          (k.que (q_mtx (index_of mtxid)))
unfolding tk_unl_mtx unl_mtx_body
tk_unl_mtx-Handed k prid t mtxid u d =
    let i = index_of mtxid in
    let r = unlock-Handed k t i u.owner u.active u.base d in
    let k1 = let_go k t i in
    let k2 = (unlock k t i).0 in
    rw (u.id_ok, u.in_task, u.running, u.access)
      (
        r.0,
        Handed-Frame k1 k1 k2 _ i (k.que (q_mtx i)) (Frame-refl k1) r.1 (update_schedtsk-Frame k2),
      )
