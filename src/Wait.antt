-- ===== src/Wait.antt =====
-- kernel/tkernel/smp_src/wait.c and wait.h: putting the running task into a wait queue, and
-- releasing tasks from it. A wait queue is named by its ring; `atr` and `id` are the fields
-- `objatr` and `objid` of its object. `t` is `ctxtsk[prid]` where a function uses that. The releases
-- that call `rel_wai_hook` are in Release.
pub mod Tests
pub mod Frame
pub mod Tpri
pub mod Delete
use tkernel.Base.{
  ℕ, zero, suc, Bool, true, false, not, ◌&&◌, Option, none, some, List, [], ◌∷◌, ◌++◌,
  if◌then◌else◌, ◌==◌, ltb, ℤ, pos, negsuc,
}
use tkernel.Kernel.{
  Kernel, Tcb, Tstat, ts_nonexist, ts_ready, ts_wait, ts_suspend, ts_waitsus, ts_dormant, Er, e_ok,
  e_dlt, e_tmout, e_diswai, Que, set_tcb, has, ta_tpri, ta_nodiswai, tskwait,
}
use tkernel.Kernel.Queue.{que_insert, que_remove, set_que, is_que_empty, first_of_que}
use tkernel.ReadyQueue.{priority_of}
use tkernel.Task.{make_ready, make_non_ready, set_state}
use tkernel.Timer.{timer_insert_reltim, timer_insert, timer_delete}

abbrev pub set_wercd : Kernel → ℕ → Er → Kernel
set_wercd k t e = set_tcb k t (record (k.tcb t) { wercd = e })

abbrev pub is_ts_wait : Tstat → Bool
is_ts_wait ts_wait = true
is_ts_wait _ = false

unfoldable pub make_non_wait : Kernel → ℕ → Kernel
make_non_wait k t = if is_ts_wait (k.tcb t).state then make_ready k t else set_state k t ts_suspend

unfoldable pub wait_release : Kernel → ℕ → Kernel
wait_release k t = make_non_wait (que_remove (timer_delete k t) t) t

unfoldable pub wait_release_ok : Kernel → ℕ → Kernel
wait_release_ok k t = wait_release (set_wercd k t e_ok) t

unfoldable pub wait_release_ok_ercd : Kernel → ℕ → Er → Kernel
wait_release_ok_ercd k t ercd = wait_release (set_wercd k t ercd) t

-- `wait_cancel`.
unfoldable pub wait_cancel : Kernel → ℕ → Kernel
wait_cancel k t = que_remove (timer_delete k t) t

-- The `switch` of `make_wait`.
unfoldable pub enter_wait : Kernel → ℕ → Tstat → Kernel
enter_wait k t ts_ready = set_state (make_non_ready k t) t ts_wait
enter_wait k t ts_suspend = set_state k t ts_waitsus
enter_wait k t _ = k

unfoldable pub make_wait : Kernel → ℕ → ℤ → ℕ → Kernel
make_wait k t tmout atr =
    let k1 = enter_wait k t (k.tcb t).state in
    timer_insert (set_tcb k1 t (record (k1.tcb t) { nodiswai = has atr ta_nodiswai })) t tmout

unfoldable pub make_wait_reltim : Kernel → ℕ → ℕ → ℕ → Kernel
make_wait_reltim k t tmout atr =
    let k1 = enter_wait k t (k.tcb t).state in
    timer_insert_reltim (set_tcb k1 t (record (k1.tcb t) { nodiswai = has atr ta_nodiswai })) t
      tmout

-- `wait_delete`, on the tasks of the queue. Each release takes the head out of it.
unfoldable pub release_all : Kernel → List ℕ → Kernel
release_all k [] = k
release_all k (t ∷ l) = release_all (wait_release (set_wercd k t e_dlt) t) l

unfoldable pub wait_delete : Kernel → Que → Kernel
wait_delete k q = release_all k (k.que q)

-- `wait_tskid`.
unfoldable pub wait_tskid : Kernel → Que → ℕ
wait_tskid k q = elim (k.que q) [ [] ↦ 0 | t ∷ l ↦ (k.tcb t).tskid ]

-- `queue_insert_tpri`: in front of the first task of a lower priority, which is a larger number.
unfoldable pub insert_tpri : (ℕ → ℕ) → ℕ → List ℕ → List ℕ
insert_tpri pri t [] = t ∷ []
insert_tpri pri t (x ∷ l) =
    let rest = insert_tpri pri t l in if ltb (pri t) (pri x) then t ∷ x ∷ l else x ∷ rest

unfoldable pub queue_insert_tpri : Kernel → ℕ → Que → Kernel
queue_insert_tpri k t q = set_que k q (insert_tpri (priority_of k) t (k.que q))

unfoldable pub gcb_make_wait : Kernel → ℕ → Que → ℕ → ℕ → ℤ → Kernel
gcb_make_wait k t q id atr tmout =
    let k1 = make_wait (set_tcb k t (record (k.tcb t) { wid = id })) t tmout atr in
    if has atr ta_tpri then queue_insert_tpri k1 t q else que_insert k1 q t

abbrev pub is_diswai : Kernel → ℕ → ℕ → ℕ → Bool
is_diswai k atr t wait = has (k.tcb t).waitmask wait && not (has atr ta_nodiswai)

-- TMO_POL.
abbrev pub is_polling : ℤ → Bool
is_polling (pos n) = n == 0
is_polling (negsuc n) = false

unfoldable pub gcb_make_wait_with_diswai : Kernel → ℕ → Que → ℕ → ℕ → ℤ → Kernel
gcb_make_wait_with_diswai k t q id atr tmout =
    if is_diswai k atr t (tskwait (k.tcb t).wspec)
    then set_wercd k t e_diswai
    else let k1 = set_wercd k t e_tmout in
      if is_polling tmout then k1 else gcb_make_wait k1 t q id atr tmout

unfoldable pub gcb_change_priority : Kernel → Que → ℕ → Kernel
gcb_change_priority k q t = queue_insert_tpri (que_remove k t) t q

-- The task that would be first if `t` were in the queue.
unfoldable pub gcb_top_of_wait_queue : Kernel → Que → ℕ → ℕ → ℕ
gcb_top_of_wait_queue k q atr t = elim (k.que q) [
  | [] ↦ t
  | x ∷ l ↦
      if not (has atr ta_tpri) then x else if ltb (priority_of k t) (priority_of k x) then t else x
]
