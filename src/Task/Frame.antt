-- ===== src/Task/Frame.antt =====
-- The operations of the ready queue and of the schedule change nothing but the ready queue, the
-- schedule and the tasks' time slices.
use tkernel.Base.{
  ℕ, zero, suc, ◌≡◌, refl, Bool, true, false, List, [], ◌∷◌, Option, none, some, ◌==◌,
  if◌then◌else◌, Bool-cases, Option-cases, inl, inr, eq_of_==, ltb, ◌+◌, ◌%◌, ◌^◌,
}
use tkernel.Kernel.{Kernel, Que, q_rdy, q_sem, q_flg, q_smbf, q_rmbf, q_mpf, q_mtx, q_mbx}
use tkernel.Kernel.Queue.{que_insert, que_remove_from, set_que, que_eq}
use tkernel.Kernel.Frame.{Frame, Frame-refl, Frame-trans, Frame-set, is_rdy, core}
use tkernel.ReadyQueue.{
  set_slicecnt, take_klock, update_top_when_insert, update_top_when_remove, ready_queue_insert,
  move_last, ready_queue_move_last, ready_queue_rotate, rotate_ring, has_cell,
}
use tkernel.Schedule.Assign.{Tasks}
use tkernel.Schedule.{ready_queue_top}
use tkernel.Task.{
  time_slice_schedule, adopt, reschedule, update_schedtsk, top_fuel, is_change_schedule,
}

same_que : (k : Kernel) (q : Que) → is_rdy q ≡ false → k.que q ≡ k.que q
same_que k q h = refl

same_tcb : (k : Kernel) (t : ℕ) → core (k.tcb t) ≡ core (k.tcb t)
same_tcb k t = refl

set_slicecnt-Frame : (k : Kernel) (t n : ℕ) → Frame k (set_slicecnt k t n)
set_slicecnt-Frame k t n =
    Frame-set k k.que _ _ _ _ _ _ (same_que k)
      (λ u. elim (Bool-cases (t == u)) [ inl e ↦ rw (e, eq_of_== t u e) refl | inr e ↦ rw e refl ])

rdy_ne : (p : ℕ) (q : Que) → is_rdy q ≡ false → que_eq (q_rdy p) q ≡ false
rdy_ne p (q_rdy i) h = cc
rdy_ne p (q_sem i) h = refl
rdy_ne p (q_flg i) h = refl
rdy_ne p (q_smbf i) h = refl
rdy_ne p (q_rmbf i) h = refl
rdy_ne p (q_mpf i) h = refl
rdy_ne p (q_mtx i) h = refl
rdy_ne p (q_mbx i) h = refl

set_rdy-Frame : (k : Kernel) (p : ℕ) (l : List ℕ) → Frame k (set_que k (q_rdy p) l)
set_rdy-Frame k p l = Frame-set k _ _ _ _ _ _ k.tcb (λ q h. rw (rdy_ne p q h) refl) (same_tcb k)

pub update_top_when_remove-Frame :
    (k : Kernel) (next : Option ℕ) (t : ℕ) → Frame k (update_top_when_remove k next t)
unfolding update_top_when_remove
update_top_when_remove-Frame k next t = elim (Bool-cases (has_cell t k.top)) [
  | inl e ↦ rw e (Frame-set k k.que _ _ _ _ _ k.tcb (same_que k) (same_tcb k))
  | inr e ↦ rw e (Frame-refl k)
]

update_top_when_insert-Frame : (k : Kernel) (t : ℕ) → Frame k (update_top_when_insert k t)
unfolding update_top_when_insert
update_top_when_insert-Frame k t = Frame-set k k.que _ _ _ _ _ k.tcb (same_que k) (same_tcb k)

pub chg-Frame : (k : Kernel) (b : Bool) → Frame k (record k { chg = b })
chg-Frame k b = Frame-set k k.que _ _ _ _ _ k.tcb (same_que k) (same_tcb k)

take_klock-Frame : (k : Kernel) (t : ℕ) → Frame k (take_klock k t)
take_klock-Frame k t = elim (Bool-cases (k.tcb t).klocked) [
  | inl e ↦ rw e (Frame-set k k.que _ _ _ _ _ k.tcb (same_que k) (same_tcb k))
  | inr e ↦ rw e (Frame-refl k)
]

chg-insert-Frame :
    (k : Kernel) (t : ℕ) → Frame k (record (update_top_when_insert k t) { chg = true })
chg-insert-Frame k t =
    Frame-trans (update_top_when_insert-Frame k t) (chg-Frame (update_top_when_insert k t) true)

bitmap-Frame : (k : Kernel) (m : ℕ → ℕ) → Frame k (record k { bitmap = m })
bitmap-Frame k m = Frame-set k k.que _ _ _ _ _ k.tcb (same_que k) (same_tcb k)

pub ready_queue_insert-Frame : (k : Kernel) (t : ℕ) → Frame k (ready_queue_insert k t)
unfolding ready_queue_insert que_insert
ready_queue_insert-Frame k t = Frame-trans (set_slicecnt-Frame k t 0) (
    Frame-trans (set_rdy-Frame (set_slicecnt k t 0) _ _)
      (Frame-trans (bitmap-Frame _ _) (Frame-trans (take_klock-Frame _ t) (chg-insert-Frame _ t))))

remove_from-Frame : (k : Kernel) (p t : ℕ) → Frame k (que_remove_from k (q_rdy p) t)
unfolding que_remove_from
remove_from-Frame k p t = set_rdy-Frame k p _

insert-Frame : (k : Kernel) (p t : ℕ) → Frame k (que_insert k (q_rdy p) t)
unfolding que_insert
insert-Frame k p t = set_rdy-Frame k p _

-- The four steps by which a task moves to the end of its ring.
to_end-Frame :
    (k : Kernel) (p t u : ℕ)
    → Frame k (
        update_top_when_insert
          (que_insert
            (update_top_when_remove (que_remove_from k (q_rdy p) t) (some u) t)
            (q_rdy p)
            t)
          t)
to_end-Frame k p t u = Frame-trans (remove_from-Frame k p t) (
    Frame-trans (update_top_when_remove-Frame _ (some u) t)
      (Frame-trans (insert-Frame _ p t) (update_top_when_insert-Frame _ t)))

rotate_ring-Frame : (k : Kernel) (p : ℕ) (l : List ℕ) → Frame k (rotate_ring k p l)
unfolding rotate_ring
rotate_ring-Frame k p [] = Frame-refl k
rotate_ring-Frame k p (t ∷ []) = set_slicecnt-Frame k t 0
rotate_ring-Frame k p (t ∷ u ∷ l) =
    Frame-trans (to_end-Frame k p t u) (Frame-trans (chg-Frame _ true) (set_slicecnt-Frame _ t 0))

pub ready_queue_rotate-Frame : (k : Kernel) (p : ℕ) → Frame k (ready_queue_rotate k p)
unfolding ready_queue_rotate
ready_queue_rotate-Frame k p = rotate_ring-Frame k p _

move_last-Frame : (k : Kernel) (t : ℕ) (next : Option ℕ) → Frame k (move_last k t next).0
unfolding move_last
move_last-Frame k t none = set_slicecnt-Frame k t 0
move_last-Frame k t (some u) = Frame-trans (to_end-Frame k _ t u) (set_slicecnt-Frame _ t 0)

pub ready_queue_move_last-Frame : (k : Kernel) (t : ℕ) → Frame k (ready_queue_move_last k t).0
unfolding ready_queue_move_last
ready_queue_move_last-Frame k t = move_last-Frame k t _

pub time_slice_schedule-Frame : (k : Kernel) (c : Option ℕ) → Frame k (time_slice_schedule k c).0
unfolding time_slice_schedule
time_slice_schedule-Frame k none = Frame-refl k
time_slice_schedule-Frame k (some t) = elim (Bool-cases (ltb 0 (k.tcb t).slicetime)) [
  | inr e ↦ rw e (Frame-refl k)
  | inl e ↦
      elim (Bool-cases (ltb (k.tcb t).slicetime (((k.tcb t).slicecnt + k.timer_period) % 2 ^ 32))) [
        | inl d ↦
            rw (e, d) (Frame-trans (set_slicecnt-Frame k t _) (ready_queue_move_last-Frame _ t))
        | inr d ↦ rw (e, d) (set_slicecnt-Frame k t _)
      ]
]

schedtsk-Frame : (k : Kernel) (s : Tasks) → Frame k (record k { schedtsk = s })
schedtsk-Frame k s = Frame-set k k.que _ _ _ _ _ k.tcb (same_que k) (same_tcb k)

pub if-Frame : (k k' : Kernel) (b : Bool) → Frame k k' → Frame k (if b then k' else k)
if-Frame k k' true f = f
if-Frame k k' false f = Frame-refl k

adopt-Frame : (toptsk : Tasks) (n i : ℕ) (k : Kernel) → Frame k (adopt k toptsk n i)
unfolding adopt
adopt-Frame toptsk zero i k = Frame-refl k
adopt-Frame toptsk (suc n) i k =
    Frame-trans (if-Frame k _ _ (time_slice_schedule-Frame k (k.schedtsk i)))
      (Frame-trans (schedtsk-Frame _ _) (adopt-Frame toptsk n (i + 1) _))

reschedule-Frame : (k : Kernel) → Frame k (reschedule k)
unfolding reschedule
reschedule-Frame k = elim (Option-cases (ready_queue_top (top_fuel k) k)) [
  | inl e ↦ rw (e, reschedule) (Frame-refl k)
  | inr (s, e) ↦
      rw (e, reschedule)
        (elim (Bool-cases (is_change_schedule k.num_proc k.schedtsk s)) [
          | inl d ↦ rw d (Frame-trans (chg-Frame k false) (adopt-Frame s k.num_proc 0 _))
          | inr d ↦ rw d (chg-Frame k false)
        ])
]

-- END_CRITICAL_SECTION leaves the objects, the wait queues and the timer alone.
pub update_schedtsk-Frame : (k : Kernel) → Frame k (update_schedtsk k)
unfolding update_schedtsk
update_schedtsk-Frame k = if-Frame k _ _ (reschedule-Frame k)
