-- ===== src/Task.antt =====
-- kernel/tkernel/smp_src/task.c: the state of a task and the ready queue, and the choice of the
-- tasks to execute. `dispatch_request()` is empty on the processors of the repository, and the
-- dispatcher, which changes `ctxtsk`, is assembly code: neither is in the model.
pub mod Frame
pub mod Unready
use tkernel.Base.{
  ℕ, zero, suc, ◌+◌, ◌*◌, ◌%◌, ◌^◌, Bool, true, false, not, ◌&&◌, Option, none, some, List, [], ◌∷◌,
  if◌then◌else◌, ◌==◌, ltb, update,
}
use tkernel.Kernel.{Kernel, Tcb, Tstat, ts_ready, ts_wait, is_waiting, set_tcb}
use tkernel.ReadyQueue.{
  num_pri, set_slicecnt, ready_queue_insert, ready_queue_delete, ready_queue_rotate,
  ready_queue_move_last, ready_queue_top_priority, priority_of, rdy_que, cell_is,
}
use tkernel.Schedule.Assign.{Tasks, same_task}
use tkernel.Schedule.{ready_queue_top}

-- `time_slice_schedule`.
unfoldable pub time_slice_schedule : Kernel → Option ℕ → Kernel × Bool
time_slice_schedule k none = (k, false)
time_slice_schedule k (some t) =
    let k1 = set_slicecnt k t (((k.tcb t).slicecnt + k.timer_period) % 2 ^ 32) in
    if ltb 0 (k.tcb t).slicetime
    then if ltb (k.tcb t).slicetime (((k.tcb t).slicecnt + k.timer_period) % 2 ^ 32)
      then ready_queue_move_last k1 t
      else (k1, false)
    else (k, false)

-- `is_change_schedule`, on the first `n` entries.
unfoldable pub is_change_schedule : ℕ → Tasks → Tasks → Bool
is_change_schedule zero cur pre = false
is_change_schedule (suc i) cur pre =
    let rest = is_change_schedule i cur pre in if same_task (cur i) (pre i) then rest else true

-- `is_schedtsk`, `is_ctxtsk` and `is_element`: the array is an argument.
unfoldable pub is_element : ℕ → Option ℕ → Tasks → Bool
is_element zero t array = false
is_element (suc i) t array =
    let rest = is_element i t array in if same_task (array i) t then true else rest

abbrev pub is_schedtsk : Kernel → ℕ → Bool
is_schedtsk k t = is_element k.num_proc (some t) k.schedtsk

abbrev pub is_ctxtsk : Kernel → ℕ → Bool
is_ctxtsk k t = is_element k.num_proc (some t) k.ctxtsk

-- `get_prid_from_ctx`, from processor `i` on with `n` left; 0 if there is none.
unfoldable pub prid_from : Kernel → ℕ → ℕ → ℕ → ℕ
prid_from k t zero i = 0
prid_from k t (suc n) i =
    let rest = prid_from k t n (i + 1) in if cell_is t (k.ctxtsk i) then i else rest

abbrev pub get_prid_from_ctx : Kernel → ℕ → ℕ
get_prid_from_ctx k t = prid_from k t k.num_proc 0

-- The fuel of `ready_queue_top`: a round for each task and each processor, and one to end.
abbrev pub top_fuel : Kernel → ℕ
top_fuel k = k.max_tskid + k.num_proc + 1

-- The loop of `reschedule`, from processor `i` on: the time slice of a task that becomes READY,
-- and the new entry of `schedtsk`.
unfoldable pub adopt : Kernel → Tasks → ℕ → ℕ → Kernel
adopt k toptsk zero i = k
adopt k toptsk (suc n) i =
    let leaves =
      same_task (k.schedtsk i) (k.ctxtsk i) && not (is_element k.num_proc (k.ctxtsk i) toptsk) in
    let k1 = if leaves then (time_slice_schedule k (k.schedtsk i)).0 else k in
    adopt (record k1 { schedtsk = update k1.schedtsk i (toptsk i) }) toptsk n (i + 1)

-- `reschedule`. `ready_queue_top` clears `chg`.
unfoldable pub reschedule : Kernel → Kernel
reschedule k = elim (ready_queue_top (top_fuel k) k) [
  | none ↦ k
  | some toptsk ↦
      let k1 = record k { chg = false } in
      if is_change_schedule k.num_proc k.schedtsk toptsk then adopt k1 toptsk k.num_proc 0 else k1
]

unfoldable pub update_schedtsk : Kernel → Kernel
update_schedtsk k = if k.chg then reschedule k else k

abbrev pub set_state : Kernel → ℕ → Tstat → Kernel
set_state k t s = set_tcb k t (record (k.tcb t) { state = s })

unfoldable pub make_ready : Kernel → ℕ → Kernel
make_ready k t = ready_queue_insert (set_state k t ts_ready) t

-- `ready_queue_top(&ready_queue, schedtsk)`, which writes the first `num_proc` entries.
unfoldable pub choose_schedtsk : Kernel → Kernel
choose_schedtsk k = elim (ready_queue_top (top_fuel k) k) [
  | none ↦ k
  | some toptsk ↦ record k {
    schedtsk = λ i. if ltb i k.num_proc then toptsk i else k.schedtsk i;
    chg = false;
  }
]

unfoldable pub make_non_ready : Kernel → ℕ → Kernel
make_non_ready k t =
    let k1 = ready_queue_delete k t in if is_schedtsk k1 t then choose_schedtsk k1 else k1

unfoldable pub rotate_ready_queue : Kernel → ℕ → Kernel
rotate_ready_queue k p = ready_queue_rotate k p

-- `none`: the ready queue is empty, and the C code reads through NULL.
unfoldable pub rotate_ready_queue_run : Kernel → Option Kernel
rotate_ready_queue_run k = elim (ready_queue_top_priority k) [
  | none ↦ none
  | some p ↦ some (ready_queue_rotate k p)
]

unfoldable pub rotate_ready_queue_ctx : Kernel → ℕ → Kernel
rotate_ready_queue_ctx k t =
    let (k1, changed) = ready_queue_move_last k t in if changed then reschedule k1 else k1
