-- ===== src/Schedule.antt =====
-- kernel/tkernel/smp_src/ready_queue.c: which tasks the processors are to run. An array of task
-- pointers or of words is a function of its index, and a word has 32 bits.
pub mod Tests
pub mod Single
pub mod Assign
use tkernel.Base.{
  ℕ, zero, suc, ◌+◌, ◌-◌, ◌*◌, ◌/◌, ◌%◌, ◌^◌, Bool, true, false, not, ◌&&◌, ◌||◌, Option, none,
  some, List, [], ◌∷◌, ◌++◌, if◌then◌else◌, ◌==◌, ltb, leb, update, bit_and, bit_or, bit_xor,
}
use tkernel.Kernel.{Kernel, Tcb, has, ta_assprc}
use tkernel.ReadyQueue.{cell_is, get_next_tcb}
use Assign.{
  Tasks, Words, core_bit, all_core_bit, cnt_bits, cnt_bits2, sum_bits, is_null, same_task,
  single_core_assign, multi_core_assign, dds_disable, first_index,
}

-- `dds_mask`: the processors on which dispatching is not disabled.
pub disabled_bits : Kernel → ℕ → ℕ
disabled_bits k zero = 0
disabled_bits k (suc j) =
    let rest = disabled_bits k j in
    if leb dds_disable (k.dispatch_disabled j) then bit_or rest (core_bit j) else rest

pub dds_mask : Kernel → ℕ
dds_mask k = bit_xor (disabled_bits k k.num_proc) (2 ^ 32 - 1)

-- The variables of the loop `get top[]`. `hist` holds the first `hist_num` entries.
pub record Choice : Type 0 where
  pub top_tcb : Tasks
  pub top_bit : Words
  pub bit_cnt : Words
  pub hist : List ℕ
  pub assign_num : ℕ

-- The processors on which the task may run; a task that is running where dispatching is disabled
-- stays there. The flag says that the task is not one of those, and has no processor left.
pub usable : Kernel → ℕ → ℕ × Bool
usable k t =
    elim (first_index (λ i. cell_is t (k.ctxtsk i) && leb dds_disable (k.dispatch_disabled i))
      k.num_proc 0) [
        | some i ↦ (core_bit i, false)
        | none ↦
            let allowed =
              if has (k.tcb t).tskatr ta_assprc
              then (k.tcb t).assprc
              else all_core_bit k.num_proc in
            let bit = bit_and allowed (dds_mask k) in (bit, bit == 0)
      ]

-- The check routine: an entry of `hist` joined with `bit`, its count of tasks above bit 16.
pub join_bits : ℕ → ℕ → ℕ
join_bits bit h = bit_or h bit + 2 ^ 16

pub overfull : ℕ → ℕ → List ℕ → Bool
overfull n bit [] = false
overfull n bit (h ∷ hs) =
    let rest = overfull n bit hs in
    if ltb (cnt_bits n (join_bits bit h % 2 ^ 16)) (join_bits bit h / 2 ^ 16) then true else rest

pub joined : ℕ → List ℕ → List ℕ
joined bit [] = []
joined bit (h ∷ hs) = join_bits bit h ∷ joined bit hs

-- The shift of `top_tcb` over entry `j`, and the new last entry.
pub shift_top : Kernel → Tasks → ℕ → Tasks
shift_top k tasks j =
    let last = k.num_proc - 1 in
    let moved = λ (i : ℕ). if leb j i && ltb i last then tasks (i + 1) else tasks i in
    update moved last (elim (tasks last) [ none ↦ none | some t ↦ get_next_tcb k t ])

pub take_task : Kernel → Choice → ℕ → ℕ → Choice
take_task k s j bit = record s {
  top_bit = update s.top_bit j bit;
  bit_cnt = sum_bits k.num_proc s.bit_cnt bit;
  hist =
      if bit == all_core_bit k.num_proc || j == k.num_proc - 1
      then s.hist
      else s.hist ++ (joined bit s.hist ++ (bit_or bit (2 ^ 16) ∷ []));
  assign_num = s.assign_num + 1;
}

-- The loop over `j`, with its jumps back to RETRY. `none` says that the fuel ran out.
pub choose : ℕ → Kernel → ℕ → Choice → Option Choice
choose zero k j s = none
choose (suc f) k j s =
    if ltb j k.num_proc
    then elim (s.top_tcb j) [
      | none ↦ some s
      | some t ↦
          let (bit, unusable) = usable k t in
          let full = not (bit == all_core_bit k.num_proc) && overfull k.num_proc bit s.hist in
          let retry = choose f k j (record s { top_tcb = shift_top k s.top_tcb j }) in
          let next = choose f k (j + 1) (take_task k s j bit) in
          if unusable || full then retry else next
    ]
    else some s

pub some_partly_bound : Kernel → Tasks → ℕ → Bool
some_partly_bound k tasks zero = false
some_partly_bound k tasks (suc j) =
    let rest = some_partly_bound k tasks j in
    elim (tasks j) [
      | none ↦ rest
      | some t ↦
          let c = cnt_bits2 k.num_proc (k.tcb t).assprc in
          if ltb 1 c && ltb c k.num_proc then true else rest
    ]

abbrev pub cell : List (Option ℕ) → ℕ → Option ℕ
cell [] i = none
cell (c ∷ l) zero = c
cell (c ∷ l) (suc i) = cell l i

-- `ready_queue_top`: the array `tcb[]`. A round of fuel is spent on each task that is taken, and on
-- each that a jump to RETRY passes over.
unfoldable pub ready_queue_top : ℕ → Kernel → Option Tasks
ready_queue_top f k =
    elim (choose f k 0 (record {
      top_tcb = cell k.top;
      top_bit = λ i. 0;
      bit_cnt = λ i. 0;
      hist = [];
      assign_num = 0;
    })) [
      | none ↦ none
      | some s ↦ some (
          if some_partly_bound k s.top_tcb s.assign_num
          then multi_core_assign k s.top_tcb s.top_bit s.bit_cnt s.assign_num
          else single_core_assign k s.top_tcb)
    ]
