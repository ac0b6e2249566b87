-- ===== src/ReadyQueue.antt =====
-- kernel/tkernel/smp_src/ready_queue.h: the ready queue. A ring for each priority, a bitmap of the
-- priorities whose ring has entries, and `top`, the first tasks of the queue, one for each
-- processor.
pub mod Tests
pub mod Cells
pub mod Levels
use tkernel.Base.{
  ℕ, zero, suc, ◌+◌, ◌-◌, Bool, true, false, not, Option, none, some, List, [], ◌∷◌, if◌then◌else◌,
  ◌==◌, ltb, leb, ℤ, pos, negsuc, sub_ℕ,
}
use tkernel.Bitop.{bitsearch1, bitset, bitclr}
use tkernel.Kernel.{Kernel, Tcb, Que, q_rdy, set_tcb}
use tkernel.Kernel.Queue.{
  que_insert, que_insert_first, que_remove, que_remove_from, next_in, first_of_que, is_que_empty,
}

abbrev pub num_pri : ℕ
num_pri = 140

abbrev pub priority_of : Kernel → ℕ → ℕ
priority_of k t = (k.tcb t).priority

abbrev pub rdy_que : Kernel → ℕ → List ℕ
rdy_que k p = k.que (q_rdy p)

-- The first task of a priority from `p` on: the search in the bitmap of `get_next_tcb`, and the
-- ring that it finds.
unfoldable pub first_from : Kernel → ℕ → Option ℕ
first_from k p = elim (bitsearch1 (suc (num_pri - p)) k.bitmap 0 (pos p) (sub_ℕ num_pri p)) [
  | some z ↦ elim z [ pos i ↦ first_of_que (rdy_que k (p + i)) | negsuc i ↦ none ]
  | none ↦ none
]

-- `get_next_tcb` for a task whose field `tskque.next` is `next`.
unfoldable pub next_or_first : Kernel → Option ℕ → ℕ → Option ℕ
next_or_first k next priority = elim next [ some t ↦ some t | none ↦ first_from k (priority + 1) ]

unfoldable pub get_next_tcb : Kernel → ℕ → Option ℕ
get_next_tcb k t = next_or_first k (next_in t (rdy_que k (priority_of k t))) (priority_of k t)

-- The list without its last entry.
unfoldable pub drop_last : List (Option ℕ) → List (Option ℕ)
drop_last [] = []
drop_last (x ∷ []) = []
drop_last (x ∷ y ∷ l) = x ∷ drop_last (y ∷ l)

-- The loop of the two functions `update_top_when_insert…`: the task goes in front of the first
-- entry that is NULL or that it passes; the entries behind move up, and the last falls out.
unfoldable pub insert_cell : (ℕ → Bool) → ℕ → List (Option ℕ) → List (Option ℕ)
insert_cell passes t [] = []
insert_cell passes t (none ∷ l) = some t ∷ drop_last (none ∷ l)
insert_cell passes t (some x ∷ l) =
    let rest = insert_cell passes t l in
    if passes x then some t ∷ drop_last (some x ∷ l) else some x ∷ rest

unfoldable pub update_top_when_insert : Kernel → ℕ → Kernel
update_top_when_insert k t = record k {
  top = insert_cell (λ x. ltb (priority_of k t) (priority_of k x)) t k.top;
}

unfoldable pub update_top_when_insert_top : Kernel → ℕ → Kernel
update_top_when_insert_top k t = record k {
  top = insert_cell (λ x. leb (priority_of k t) (priority_of k x)) t k.top;
}

abbrev pub cell_is : ℕ → Option ℕ → Bool
cell_is t none = false
cell_is t (some x) = x == t

unfoldable pub has_cell : ℕ → List (Option ℕ) → Bool
has_cell t [] = false
has_cell t (c ∷ l) = let rest = has_cell t l in if cell_is t c then true else rest

-- `for ( i = n; i < num_proc-1; i++ ) top[i] = top[i+1];` behind the entry `c`, which it writes
-- over: the last entry stays where it is.
unfoldable pub keep_last : Option ℕ → List (Option ℕ) → List (Option ℕ)
keep_last c [] = c ∷ []
keep_last c (d ∷ l) = d ∷ keep_last d l

unfoldable pub shift_out : ℕ → List (Option ℕ) → List (Option ℕ)
shift_out t [] = []
shift_out t (c ∷ l) = let rest = shift_out t l in if cell_is t c then keep_last c l else c ∷ rest

-- The last entry from the one before it, if that is not NULL.
unfoldable pub refill : (ℕ → Option ℕ) → List (Option ℕ) → List (Option ℕ)
refill next [] = []
refill next (c ∷ []) = c ∷ []
refill next (none ∷ d ∷ []) = none ∷ d ∷ []
refill next (some x ∷ d ∷ []) = some x ∷ next x ∷ []
refill next (c ∷ d ∷ e ∷ l) = c ∷ refill next (d ∷ e ∷ l)

-- `next` is the field `tskque.next` of the task, which `QueRemove` has left as it was.
unfoldable pub update_top_when_remove : Kernel → Option ℕ → ℕ → Kernel
update_top_when_remove k next t =
    if has_cell t k.top
    then record k {
      top =
          if k.num_proc == 1
          then next_or_first k next (priority_of k t) ∷ []
          else refill (get_next_tcb k) (shift_out t k.top);
    }
    else k

abbrev pub set_slicecnt : Kernel → ℕ → ℕ → Kernel
set_slicecnt k t n = set_tcb k t (record (k.tcb t) { slicecnt = n })

abbrev pub take_klock : Kernel → ℕ → Kernel
take_klock k t = if (k.tcb t).klocked then record k { klocktsk = some t } else k

-- `ready_queue_insert`.
unfoldable pub ready_queue_insert : Kernel → ℕ → Kernel
ready_queue_insert k t =
    let p = priority_of k t in
    let k1 = que_insert (set_slicecnt k t 0) (q_rdy p) t in
    let k2 = take_klock (record k1 { bitmap = bitset k1.bitmap 0 (pos p) }) t in
    record (update_top_when_insert k2 t) { chg = true }

-- `ready_queue_insert_top`.
unfoldable pub ready_queue_insert_top : Kernel → ℕ → Kernel
ready_queue_insert_top k t =
    let p = priority_of k t in
    let k1 = que_insert_first k (q_rdy p) t in
    let k2 = take_klock (record k1 { bitmap = bitset k1.bitmap 0 (pos p) }) t in
    record (update_top_when_insert_top k2 t) { chg = true }

abbrev pub drop_klock : Kernel → ℕ → Kernel
drop_klock k t = if cell_is t k.klocktsk then record k { klocktsk = none } else k

abbrev pub clear_if_empty : Kernel → ℕ → Kernel
clear_if_empty k p =
    if is_que_empty (rdy_que k p) then record k { bitmap = bitclr k.bitmap 0 (pos p) } else k

-- `ready_queue_delete`.
unfoldable pub ready_queue_delete : Kernel → ℕ → Kernel
ready_queue_delete k t =
    let p = priority_of k t in
    let next = next_in t (rdy_que k p) in
    let k1 = clear_if_empty (que_remove (drop_klock k t) t) p in
    if (k1.tcb t).klockwait
    then set_tcb k1 t (record (k1.tcb t) { klockwait = false })
    else record (update_top_when_remove k1 next t) { chg = true }

-- `ready_queue_rotate`, on the ring of the priority.
unfoldable pub rotate_ring : Kernel → ℕ → List ℕ → Kernel
rotate_ring k p [] = k
rotate_ring k p (t ∷ []) = set_slicecnt k t 0
rotate_ring k p (t ∷ u ∷ l) =
    let k1 = update_top_when_remove (que_remove_from k (q_rdy p) t) (some u) t in
    let k2 = update_top_when_insert (que_insert k1 (q_rdy p) t) t in
    set_slicecnt (record k2 { chg = true }) t 0

unfoldable pub ready_queue_rotate : Kernel → ℕ → Kernel
ready_queue_rotate k p = rotate_ring k p (rdy_que k p)

-- `ready_queue_move_last`, with the truth value that it returns.
unfoldable pub move_last : Kernel → ℕ → Option ℕ → Kernel × Bool
move_last k t none = (set_slicecnt k t 0, false)
move_last k t (some u) =
    let k1 = update_top_when_remove (que_remove_from k (q_rdy (priority_of k t)) t) (some u) t in
    let k2 = update_top_when_insert (que_insert k1 (q_rdy (priority_of k t)) t) t in
    (set_slicecnt k2 t 0, true)

unfoldable pub ready_queue_move_last : Kernel → ℕ → Kernel × Bool
ready_queue_move_last k t = move_last k t (next_in t (rdy_que k (priority_of k t)))

-- `ready_queue_top_priority`; `none` stands for the read through NULL in an empty ready queue.
unfoldable pub ready_queue_top_priority : Kernel → Option ℕ
ready_queue_top_priority k = elim k.top [
  | [] ↦ none
  | c ∷ l ↦ elim c [ none ↦ none | some t ↦ some (priority_of k t) ]
]
