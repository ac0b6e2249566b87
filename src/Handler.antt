-- ===== src/Handler.antt =====
-- kernel/tkernel/smp_src/time_calls.c: the start of cyclic and alarm handlers. The event of a handler
-- whose time has come goes to the handler queue of a processor, and `handler_execution` on that
-- processor calls the handler. `user` stands for all that happens while a handler runs, outside the
-- critical section: from its address and its `exinf` it makes a change of the state.
pub mod Queues
pub mod Asked
pub mod Live
pub mod Requests
pub mod Next
pub mod Calls
pub mod Moves
pub mod Quiet
pub mod Processors
pub mod Tests
use mathlib.Core.Option
use tkernel.Base.{
  ℕ, zero, suc, ◌+◌, ◌-◌, ◌*◌, ◌/◌, ◌%◌, ◌^◌, Bool, true, false, not, ◌&&◌, ◌||◌, Option, none,
  some, List, [], ◌∷◌, ◌++◌, if◌then◌else◌, ◌==◌, leb, length, update, bit_and, bit_or,
}
use tkernel.Kernel.{
  Kernel, Tmeb, Callback, cb_distribute_cychdr, cb_call_cychdr, cb_distribute_almhdr,
  cb_call_almhdr, set_cyccb, set_almcb, set_hdrque, has, ta_assprc,
}
use tkernel.Timer.{timer_insert_abs}

-- `bit_tbl`, and an entry of a table.
abbrev pub bit_tbl : List ℕ
bit_tbl = 0 ∷ 0 ∷ 1 ∷ 0 ∷ 2 ∷ 0 ∷ 1 ∷ 0 ∷ 3 ∷ 0 ∷ 1 ∷ 0 ∷ 2 ∷ 0 ∷ 1 ∷ 0 ∷ []

unfoldable pub entry : List ℕ → ℕ → ℕ
entry [] n = 0
entry (x ∷ l) n = let rest = entry l (n - 1) in if n == 0 then x else rest

-- `assprc_to_prid`; the loop stands at the half byte `assprc & 0xf`.
unfoldable pub prid_loop : ℕ → ℕ → ℕ → ℕ
prid_loop zero assprc prid = 0
prid_loop (suc n) assprc prid =
    let rest = prid_loop n (assprc / 16) (prid + 4) in
    if assprc % 16 == 0 then rest else prid + entry bit_tbl (assprc % 16)

unfoldable pub assprc_to_prid : ℕ → ℕ
assprc_to_prid assprc = if assprc == 0 then 0 else prid_loop 8 assprc 0

-- `chk_assprc`, where ALL_CORE_BIT is that of `num_proc` processors.
unfoldable pub chk_assprc : Kernel → ℕ → Bool
chk_assprc k assprc =
    not (assprc == 0) && ((assprc / 2 ^ k.num_proc == 0) && (bit_and assprc (assprc - 1) == 0))

unfoldable pub enqueue_handler : Kernel → ℕ → Tmeb → Kernel
enqueue_handler k prid event =
    let hq = k.obj.handler_queue prid in
    set_hdrque k prid (record hq { hdrque = hq.hdrque ++ (event ∷ []); upd = true })

-- `check_handler_queue`: the loop, from processor `i` on, with `assprc`.
unfoldable pub check_loop : ℕ → Kernel → ℕ → ℕ → Kernel × ℕ
check_loop zero k i assprc = (k, assprc)
check_loop (suc n) k i assprc =
    let hq = k.obj.handler_queue i in
    let raised = hq.upd && not hq.act in
    let k1 = set_hdrque k i (record hq { upd = false; act = if raised then true else hq.act }) in
    check_loop n k1 (i + 1) (if raised then bit_or assprc (2 ^ i) else assprc)

unfoldable pub check_handler_queue : Kernel → Kernel × ℕ
check_handler_queue k = check_loop k.num_proc k 0 0

-- `distribute_cychdr` and `distribute_almhdr`, on processor `prid`.
unfoldable pub distribute_cychdr : Kernel → ℕ → ℕ → Kernel
distribute_cychdr k prid i =
    let cb = k.obj.cyccb i in
    let to = if has cb.cycatr ta_assprc then assprc_to_prid cb.assprc else prid in
    enqueue_handler k to (record { time = cb.cyctmeb_time; callback = cb_call_cychdr i })

unfoldable pub distribute_almhdr : Kernel → ℕ → ℕ → Kernel
distribute_almhdr k prid i =
    let cb = k.obj.almcb i in
    let to = if has cb.almatr ta_assprc then assprc_to_prid cb.assprc else prid in
    enqueue_handler k to (record { time = cb.almtmeb_time; callback = cb_call_almhdr i })

-- `cyc_next_time`, from `cyctmeb.time`, `cyctim` and `current_time`.
unfoldable pub cyc_next_time : ℕ → ℕ → ℕ → ℕ
cyc_next_time time cyctim now =
    if leb (time + cyctim) now then time + ((now - time) / cyctim + 1) * cyctim else time + cyctim

unfoldable pub cyc_timer_insert : Kernel → ℕ → ℕ → Kernel
cyc_timer_insert k i tm =
    timer_insert_abs (set_cyccb k i (record (k.obj.cyccb i) { cyctmeb_time = tm })) tm
      (cb_distribute_cychdr i)

unfoldable pub alm_timer_insert : Kernel → ℕ → ℕ → Kernel
alm_timer_insert k i reltim =
    let tm = k.current_time + reltim + k.timer_period in
    timer_insert_abs (set_almcb k i (record (k.obj.almcb i) { almtmeb_time = tm })) tm
      (cb_distribute_almhdr i)

-- `cyc_timer_insert(cyccb, cyc_next_time(cyccb))`.
abbrev pub cyc_again : Kernel → ℕ → Kernel
cyc_again k i =
    let cb = k.obj.cyccb i in
    cyc_timer_insert k i (cyc_next_time cb.cyctmeb_time cb.cyctim k.current_time)

-- ENTER_TASK_INDEPENDENT and LEAVE_TASK_INDEPENDENT around the run of a handler.
abbrev pub task_independent : ℕ → (Kernel → Kernel) → Kernel → Kernel
task_independent prid run k =
    let k1 = run (record k { task_indp = update k.task_indp prid true }) in
    record k1 { task_indp = update k1.task_indp prid (k.task_indp prid) }

module _ (user : ℕ → ℕ → Kernel → Kernel) where
  unfoldable pub call_cychdr : Kernel → ℕ → Kernel
  call_cychdr k i =
      let k1 = cyc_again k i in
      let cb = k1.obj.cyccb i in
      let k2 = user cb.cychdr cb.exinf (set_cyccb k1 i (record cb { run = true })) in
      let end = k2.obj.cyccb i in
      if cb.cycno == end.cycno then set_cyccb k2 i (record end { run = false }) else k2

  unfoldable pub call_almhdr : Kernel → ℕ → Kernel
  call_almhdr k i =
      let cb = k.obj.almcb i in
      let k1 = user cb.almhdr cb.exinf (set_almcb k i (record cb { sta = false; run = true })) in
      let end = k1.obj.almcb i in
      if cb.almno == end.almno then set_almcb k1 i (record end { run = false }) else k1

  -- `(*event->callback)(event->arg)` of an event of a handler queue.
  unfoldable pub call_handler : Callback → Kernel → Kernel
  call_handler (cb_call_cychdr i) k = call_cychdr k i
  call_handler (cb_call_almhdr i) k = call_almhdr k i
  call_handler _ k = k

  -- The loop of `handler_execution`, on fuel: `none` when it is used up. The fuel `fuel` of the
  -- functions below is that of one run of it.
  unfoldable pub run_handlers : ℕ → Kernel → ℕ → Option Kernel
  run_handlers zero k prid = none
  run_handlers (suc n) k prid =
      let hq = k.obj.handler_queue prid in
      elim hq.hdrque [
        | [] ↦ some (set_hdrque k prid (record hq { act = false }))
        | event ∷ l ↦
            run_handlers n
              (call_handler event.callback (set_hdrque k prid (record hq { hdrque = l }))) prid
      ]

-- `handler_request`: an interrupt for the other processors of `assprc`, and whether `prid` is one.
unfoldable pub handler_request : Kernel → ℕ → ℕ → Kernel × Bool
handler_request k prid assprc =
    let asked = λ (p : ℕ). not (p == prid) && has assprc (2 ^ p) in
    (
      record k { obj = record k.obj { ipi_hdr = λ p. if asked p then true else k.obj.ipi_hdr p } },
      has assprc (2 ^ prid),
    )

module _ (user : ℕ → ℕ → Kernel → Kernel) (fuel : ℕ) where
  unfoldable pub handler_execution : Kernel → ℕ → Option Kernel
  handler_execution k prid = run_handlers user fuel k prid

  -- `handler_interrupt`: the interrupt, which is no longer pending when it is taken.
  unfoldable pub handler_interrupt : Kernel → ℕ → Option Kernel
  handler_interrupt k prid =
      handler_execution
        (record k { obj = record k.obj { ipi_hdr = update k.obj.ipi_hdr prid false } }) prid

  unfoldable pub handler_update : Kernel → ℕ → ℕ → Option Kernel
  handler_update k prid assprc =
      let (k1, own) = handler_request k prid assprc in
      let run = handler_execution k1 prid in
      if assprc == 0 then some k else if own then run else some k1

  -- `immediate_call_cychdr` and `immediate_call_almhdr`.
  unfoldable pub immediate_call_cychdr : Kernel → ℕ → ℕ → Option Kernel
  immediate_call_cychdr k prid i =
      let (k1, assprc) = check_handler_queue (distribute_cychdr k prid i) in
      let there = handler_update k1 prid assprc in
      let k2 = cyc_again k i in
      let cb = k2.obj.cyccb i in
      let k3 =
        task_independent prid (user cb.cychdr cb.exinf)
          (set_cyccb k2 i (record cb { run = true; imm = true })) in
      let end = k3.obj.cyccb i in
      if has (k.obj.cyccb i).cycatr ta_assprc
      then there
      else some (
          if cb.cycno == end.cycno
          then set_cyccb k3 i (record end { run = false; imm = false })
          else k3)

  unfoldable pub immediate_call_almhdr : Kernel → ℕ → ℕ → Option Kernel
  immediate_call_almhdr k prid i =
      let cb = k.obj.almcb i in
      let (k1, assprc) =
        check_handler_queue (distribute_almhdr (set_almcb k i (record cb { sta = true })) prid i) in
      let there = handler_update k1 prid assprc in
      let k2 =
        task_independent prid (user cb.almhdr cb.exinf)
          (set_almcb k i (record cb { sta = false; run = true; imm = true })) in
      let end = k2.obj.almcb i in
      if has cb.almatr ta_assprc
      then there
      else some (
          if cb.almno == end.almno
          then set_almcb k2 i (record end { run = false; imm = false })
          else k2)
