-- ===== src/Schedule/Assign.antt =====
-- The assignment of chosen tasks to processors, `single_core_assign` and `multi_core_assign` of
-- kernel/tkernel/smp_src/ready_queue.c, and the functions on words of processors.
use tkernel.Base.{
  ℕ, zero, suc, ◌+◌, ◌-◌, ◌/◌, ◌%◌, ◌^◌, Bool, true, false, not, ◌&&◌, ◌||◌, Option, none, some,
  if◌then◌else◌, ◌==◌, ltb, leb, update, bit_and, bit_xor,
}
use tkernel.Kernel.{Kernel, has, ta_assprc}

abbrev pub Tasks : Type 0
Tasks = ℕ → Option ℕ

abbrev pub Words : Type 0
Words = ℕ → ℕ

abbrev pub dds_disable : ℕ
dds_disable = 2

-- `1 << i` and ALL_CORE_BIT.
unfoldable pub core_bit : ℕ → ℕ
core_bit i = 2 ^ i

unfoldable pub all_core_bit : ℕ → ℕ
all_core_bit n = 2 ^ n - 1

abbrev pub is_null : Option ℕ → Bool
is_null none = true
is_null (some t) = false

abbrev pub same_task : Option ℕ → Option ℕ → Bool
same_task none none = true
same_task none (some u) = false
same_task (some t) none = false
same_task (some t) (some u) = t == u

-- A `for` loop that stops at the first index: the rounds left, and the index.
unfoldable pub first_index : (ℕ → Bool) → ℕ → ℕ → Option ℕ
first_index test zero i = none
first_index test (suc n) i =
    let rest = first_index test n (i + 1) in if test i then some i else rest

-- `cnt_bits_table`.
abbrev pub nibble_bits : ℕ → ℕ
nibble_bits b = b % 2 + b / 2 % 2 + b / 4 % 2 + b / 8 % 2

abbrev cnt_nibbles : ℕ → ℕ → ℕ
cnt_nibbles zero bits = 0
cnt_nibbles (suc r) bits = nibble_bits (bits % 16) + cnt_nibbles r (bits / 16)

unfoldable pub cnt_bits : ℕ → ℕ → ℕ
cnt_bits n bits = cnt_nibbles ((n + 3) / 4) bits

unfoldable pub cnt_bits2 : ℕ → ℕ → ℕ
cnt_bits2 zero bits = 0
cnt_bits2 (suc i) bits = (if has bits (core_bit i) then 1 else 0) + cnt_bits2 i bits

-- `sum_bits` and `unsum_bits`, on words of 32 bits.
unfoldable pub sum_bits : ℕ → Words → ℕ → Words
sum_bits n cnt bit i = if ltb i n && has bit (core_bit i) then (cnt i + 1) % 2 ^ 32 else cnt i

unfoldable pub unsum_bits : ℕ → Words → ℕ → Words
unsum_bits n cnt bit i =
    if ltb i n && has bit (core_bit i) then (cnt i + 2 ^ 32 - 1) % 2 ^ 32 else cnt i

unfoldable pub drop_bit : ℕ → Words → ℕ → Words
drop_bit n bits pr i =
    if ltb i n then bit_and (bits i) (bit_xor (core_bit pr) (2 ^ 32 - 1)) else bits i

-- The arrays `sch` and `top_tcb` of `single_core_assign`.
pub record Placing : Type 0 where
  pub sch : Tasks
  pub left : Tasks

-- `sch[i] = top_tcb[j]; top_tcb[j] = NULL;` at the first `i` that passes the test.
unfoldable pub place : Kernel → (ℕ → Bool) → Placing → ℕ → Placing
place k test s j = elim (first_index test k.num_proc 0) [
  | none ↦ s
  | some i ↦ record { sch = update s.sch i (s.left j); left = update s.left j none }
]

-- Assign a task with the attribute TA_ASSPRC. The loop ends at the first NULL.
unfoldable pub place_bound : Kernel → Placing → ℕ → ℕ → Placing
place_bound k s zero j = s
place_bound k s (suc n) j = elim (s.left j) [
  | none ↦ s
  | some t ↦
      let tcb = k.tcb t in
      let free = not (has tcb.tskatr ta_assprc) || tcb.assprc == all_core_bit k.num_proc in
      let s1 =
        if free then s else place k (λ i. has tcb.assprc (core_bit i) && is_null (s.sch i)) s j in
      place_bound k s1 n (j + 1)
]

-- Assign a task to the processor on which it is running.
unfoldable pub place_running : Kernel → Placing → ℕ → ℕ → Placing
place_running k s zero j = s
place_running k s (suc n) j =
    let s1 =
      if is_null (s.left j)
      then s
      else place k (λ i. is_null (s.sch i) && same_task (k.ctxtsk i) (s.left j)) s j in
    place_running k s1 n (j + 1)

-- Assign the rest where dispatching is not disabled.
unfoldable pub place_rest : Kernel → Placing → ℕ → ℕ → Placing
place_rest k s zero j = s
place_rest k s (suc n) j =
    let s1 =
      if is_null (s.left j)
      then s
      else place k (λ i. not (leb dds_disable (k.dispatch_disabled i)) && is_null (s.sch i)) s j in
    place_rest k s1 n (j + 1)

unfoldable pub single_core_assign : Kernel → Tasks → Tasks
single_core_assign k tasks =
    let s0 : Placing = record { sch = λ i. none; left = tasks } in
    let s1 = place_bound k s0 k.num_proc 0 in
    let s2 = place_running k s1 k.num_proc 0 in (place_rest k s2 k.num_proc 0).sch

-- The variables of `multi_core_assign`.
pub record Matching : Type 0 where
  pub chosen : Tasks
  pub bits : Words
  pub counts : Words

-- `try_assign`, `none` where it returns 0.
unfoldable pub try_assign : Kernel → Tasks → Matching → ℕ → ℕ → Option ℕ → Option Matching
try_assign k tasks s idx pr cmptcb =
    if has (s.bits idx) (core_bit pr) && (is_null (s.chosen pr) && same_task cmptcb (tasks idx))
    then some (record {
      chosen = update s.chosen pr (tasks idx);
      bits = update (drop_bit k.num_proc s.bits pr) idx 0;
      counts = unsum_bits k.num_proc s.counts (s.bits idx);
    })
    else none

-- The first attempt that succeeds.
abbrev pub or_else : Option Matching → Option Matching → Option Matching
or_else none r = r
or_else (some s) r = some s

unfoldable pub try_all : (ℕ → Option Matching) → ℕ → ℕ → Option Matching
try_all attempt zero i = none
try_all attempt (suc n) i = or_else (attempt i) (try_all attempt n (i + 1))

-- One column and one row, for the running tasks (`running`) or for the rest.
unfoldable pub try_cross : Kernel → Tasks → Matching → Bool → ℕ → ℕ → Option Matching
try_cross k tasks s running c j =
    let column =
      try_all (λ i. try_assign k tasks s i j (if running then k.ctxtsk j else tasks i)) k.num_proc
        0 in
    let row =
      try_all (λ i. try_assign k tasks s j i (if running then k.ctxtsk i else tasks j)) k.num_proc
        0 in
    or_else (if s.counts j == c then column else none)
      (if cnt_bits k.num_proc (s.bits j) == c then row else none)

unfoldable pub try_counts : Kernel → Tasks → Matching → ℕ → ℕ → Option Matching
try_counts k tasks s zero c = none
try_counts k tasks s (suc n) c =
    or_else (try_all (try_cross k tasks s true c) k.num_proc 0) (
      or_else (try_all (try_cross k tasks s false c) k.num_proc 0) (try_counts k tasks s n (c + 1)))

-- RE_ASSIGN: one task is assigned in each round, and the number left falls.
unfoldable pub re_assign : Kernel → Tasks → ℕ → Matching → Matching
re_assign k tasks zero s = s
re_assign k tasks (suc n) s = elim (try_counts k tasks s k.num_proc 1) [
  | none ↦ s
  | some s1 ↦ re_assign k tasks n s1
]

unfoldable pub multi_core_assign : Kernel → Tasks → Words → Words → ℕ → Tasks
multi_core_assign k tasks bits counts assign_num =
    (re_assign k tasks assign_num
      (record { chosen = λ i. none; bits = bits; counts = counts })).chosen
