-- ===== src/Task/Unready.antt =====
-- kernel/tkernel/smp_src/task.c, `make_non_ready`: a READY task leaves nothing but the ready queue.
use tkernel.Base.{
  ℕ, ◌≡◌, refl, ap, ◌∙◌, List, Bool, true, false, inl, inr, Bool-cases, Option-cases, eq_of_==,
  ◌==◌, if◌then◌else◌,
}
use tkernel.Kernel.{Kernel, Que, set_tcb}
use tkernel.Kernel.Frame.{Frame, Frame-refl, Frame-trans, Frame-set, is_rdy}
use tkernel.Task.{make_non_ready, choose_schedtsk, is_schedtsk, top_fuel}
use tkernel.Task.Frame.{if-Frame, update_top_when_remove-Frame, chg-Frame}
use tkernel.Schedule.{ready_queue_top}
use tkernel.ReadyQueue.{
  cell_is, has_cell, update_top_when_remove, ready_queue_delete, drop_klock, clear_if_empty,
  rdy_que, priority_of,
}
use tkernel.Kernel.Queue.{que_remove, remove, next_in}
use tkernel.Kernel.Lists.{NotIn, remove-NotIn}

choose_schedtsk-Frame : (k : Kernel) → Frame k (choose_schedtsk k)
unfolding choose_schedtsk
choose_schedtsk-Frame k = elim (Option-cases (ready_queue_top (top_fuel k) k)) [
  | inl e ↦ rw (e, choose_schedtsk) (Frame-refl k)
  | inr (s, e) ↦
      rw (e, choose_schedtsk) (Frame-set k k.que _ _ _ _ _ k.tcb (λ q h. refl) (λ t. refl))
]

-- The task stands in no wait queue.
abbrev pub Unqueued : Kernel → ℕ → Type 0
Unqueued k t = (q : Que) → is_rdy q ≡ false → NotIn t (k.que q)

pub drop_klock-Frame : (k : Kernel) (t : ℕ) → Frame k (drop_klock k t)
drop_klock-Frame k t = if-Frame k _ _ (Frame-set k k.que _ _ _ _ _ k.tcb (λ q h. refl) (λ u. refl))

Unqueued-drop : (k : Kernel) (t : ℕ) → Unqueued k t → Unqueued (drop_klock k t) t
Unqueued-drop k t h = elim (Bool-cases (cell_is t k.klocktsk)) [ inl e ↦ rw e h | inr e ↦ rw e h ]

que_remove-Frame : (k : Kernel) (t : ℕ) → Unqueued k t → Frame k (que_remove k t)
unfolding que_remove
que_remove-Frame k t h =
    Frame-set k _ _ _ _ _ _ k.tcb (λ q n. remove-NotIn t (k.que q) (h q n)) (λ u. refl)

clear_if_empty-Frame : (k : Kernel) (p : ℕ) → Frame k (clear_if_empty k p)
clear_if_empty-Frame k p =
    if-Frame k _ _ (Frame-set k k.que _ _ _ _ _ k.tcb (λ q h. refl) (λ u. refl))

klockwait-Frame :
    (k : Kernel) (t : ℕ) → Frame k (set_tcb k t (record (k.tcb t) { klockwait = false }))
klockwait-Frame k t =
    Frame-set k k.que _ _ _ _ _ _ (λ q h. refl)
      (λ u. elim (Bool-cases (t == u)) [ inl e ↦ rw (e, eq_of_== t u e) refl | inr e ↦ rw e refl ])

either-Frame :
    (k k1 k2 : Kernel) (b : Bool) → Frame k k1 → Frame k k2 → Frame k (if b then k1 else k2)
either-Frame k k1 k2 true f g = f
either-Frame k k1 k2 false f g = g

-- `ready_queue_delete` once the task has left its ring.
pub ready_queue_delete-Frame_removed :
    (k : Kernel) (t : ℕ) → Frame (que_remove (drop_klock k t) t) (ready_queue_delete k t)
unfolding ready_queue_delete
ready_queue_delete-Frame_removed k t =
    let p = priority_of k t in
    let next = next_in t (rdy_que k p) in
    let k1 = clear_if_empty (que_remove (drop_klock k t) t) p in
    Frame-trans (clear_if_empty-Frame _ p) (
      either-Frame k1 _ _ (k1.tcb t).klockwait (klockwait-Frame k1 t)
        (Frame-trans (update_top_when_remove-Frame k1 next t) (chg-Frame _ true)))

pub ready_queue_delete-Frame :
    (k : Kernel) (t : ℕ) → Unqueued k t → Frame k (ready_queue_delete k t)
ready_queue_delete-Frame k t h = Frame-trans (drop_klock-Frame k t) (
    Frame-trans (que_remove-Frame _ t (Unqueued-drop k t h)) (ready_queue_delete-Frame_removed k t))

pub make_non_ready-Frame : (k : Kernel) (t : ℕ) → Unqueued k t → Frame k (make_non_ready k t)
unfolding make_non_ready
make_non_ready-Frame k t h =
    Frame-trans (ready_queue_delete-Frame k t h) (if-Frame _ _ _ (choose_schedtsk-Frame _))

if_que :
    (b : Bool) (x y : Kernel) (f : Que → List ℕ)
    → x.que ≡ f
    → y.que ≡ f
    → (if b then x else y).que ≡ f
if_que true x y f e g = e
if_que false x y f e g = g

choose_schedtsk-que : (k : Kernel) → (choose_schedtsk k).que ≡ k.que
unfolding choose_schedtsk
choose_schedtsk-que k = elim (Option-cases (ready_queue_top (top_fuel k) k)) [
  | inl e ↦ rw (e, choose_schedtsk) refl
  | inr (s, e) ↦ rw (e, choose_schedtsk) refl
]

ready_queue_delete-que :
    (k : Kernel) (t : ℕ) → (ready_queue_delete k t).que ≡ (λ q. remove t (k.que q))
unfolding ready_queue_delete que_remove update_top_when_remove
ready_queue_delete-que k t =
    let dropped : (drop_klock k t).que ≡ k.que = if_que (cell_is t k.klocktsk) _ _ _ refl refl in
    let gone : (que_remove (drop_klock k t) t).que ≡ (λ q. remove t (k.que q)) =
      ap (λ f q. remove t (f q)) dropped in
    let k1 = clear_if_empty (que_remove (drop_klock k t) t) (priority_of k t) in
    let cleared : k1.que ≡ (λ q. remove t (k.que q)) = if_que _ _ _ _ gone gone in
    if_que (k1.tcb t).klockwait _ _ _ cleared (if_que (has_cell t k1.top) _ k1 _ cleared cleared)

-- A task that is no longer READY leaves its ring, and all else keeps its place.
pub make_non_ready-que : (k : Kernel) (t : ℕ) → (make_non_ready k t).que ≡ (λ q. remove t (k.que q))
unfolding make_non_ready
make_non_ready-que k t =
    let e = ready_queue_delete-que k t in
    if_que (is_schedtsk (ready_queue_delete k t) t) _ _ _ (choose_schedtsk-que _ ∙ e) e
