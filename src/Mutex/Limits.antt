-- ===== src/Mutex/Limits.antt =====
-- kernel/tkernel/smp_src/mutex.c, `chg_pri_mutex`: the limits that mutexes set to a change of a
-- priority.
use tkernel.Base.{
  ℕ, ◌≤◌, ◌≡◌, refl, ap, ◌∙◌, List, [], ◌∷◌, arith, ltb, if◌then◌else◌, Bool-cases, List-cases, inl,
  inr,
}
use tkernel.Kernel.{Kernel, done, e_iluse, q_mtx}
use tkernel.Priority.{is_ceiling, is_inherit, mutex_pri}
use tkernel.Priority.Highest.{demands, least, lower, lower-le, lower_same}
use tkernel.Mutex.{limits_loop, waited_limit, chg_pri_mutex}

-- The ceilings among the mutexes of a list, and the greatest of a number and those of a list.
unfoldable pub ceilings : Kernel → List ℕ → List ℕ
ceilings k [] = []
ceilings k (i ∷ l) =
    if is_ceiling (k.obj.mtxcb i) then (k.obj.mtxcb i).ceilpri ∷ ceilings k l else ceilings k l

unfoldable pub greatest : ℕ → List ℕ → ℕ
greatest n [] = n
greatest n (d ∷ l) = greatest (if ltb n d then d else n) l

limits_loop_lem :
    (k : Kernel) (l : List ℕ) (hi low pri : ℕ)
    → hi ≤ pri
    → limits_loop k hi low pri l ≡ (least hi (demands k l), greatest low (ceilings k l))
unfolding limits_loop mutex_pri demands least ceilings greatest
limits_loop_lem k [] hi low pri le = refl
limits_loop_lem k (i ∷ l) hi low pri le =
    let step = λ (p low' : ℕ). limits_loop_lem k l (lower p hi) low' p (lower-le p hi) in
    let quiet =
      step pri low
      ∙ ap (λ m. (least m (demands k l), greatest low (ceilings k l))) (lower_same pri hi le) in
    elim (Bool-cases (is_ceiling (k.obj.mtxcb i))) [
      | inl c ↦ let p = (k.obj.mtxcb i).ceilpri in rw c (step p (if ltb low p then p else low))
      | inr c ↦ elim (Bool-cases (is_inherit (k.obj.mtxcb i))) [
        | inr h ↦ rw (c, h) quiet
        | inl h ↦ elim (List-cases (k.que (q_mtx i))) [
          | inl e ↦ rw (c, h, e) quiet
          | inr (w, r, e) ↦ rw (c, h, e) (step (k.tcb w).priority low)
        ]
      ]
    ]

-- `chg_pri_mutex` refuses a priority that is higher, as a number less, than the greatest of the ceilings
-- of the mutexes that the task holds and of the one for which it waits; otherwise the task gets the
-- least of the number asked for and what the mutexes that it holds ask for.
pub chg_pri_mutex_lem :
    (k : Kernel) (t priority : ℕ)
    → chg_pri_mutex k t priority ≡ (
        if ltb priority (greatest (waited_limit k t) (ceilings k (k.tcb t).mtxlist))
        then e_iluse
        else done (least priority (demands k (k.tcb t).mtxlist)))
unfolding chg_pri_mutex
chg_pri_mutex_lem k t priority =
    rw (limits_loop_lem k (k.tcb t).mtxlist priority (waited_limit k t) priority (omega arith)) refl
