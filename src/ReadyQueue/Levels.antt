-- ===== src/ReadyQueue/Levels.antt =====
-- kernel/tkernel/smp_src/ready_queue.h: the rings of the ready queue as one list, and `top` as its
-- beginning.
use mathlib.Core.Path.{fun_ext}
use mathlib.Core.List.{append_assoc}
use tkernel.Base.{
  ℕ, zero, suc, ◌+◌, ◌≤◌, ◌<◌, ◌≡◌, inl, inr, refl, sym, ap, subst, ◌∙◌, true, false, List, [], ◌∷◌,
  ◌++◌, arith, ltb, ◌==◌, Bool-cases, if◌then◌else◌, eq_of_==, ne_of_==, ==-ne, update,
}
use tkernel.Kernel.{Kernel}
use tkernel.Kernel.Queue.{que_insert}
use tkernel.Wait.{insert_tpri}
use tkernel.ReadyQueue.Cells.{cells, insert_cell-cells}
use tkernel.ReadyQueue.{
  num_pri, priority_of, rdy_que, ready_queue_insert, update_top_when_insert, insert_cell,
  set_slicecnt,
}

-- The rings of `n` priorities from `p` on, one behind the other.
unfoldable pub flatten : (ℕ → List ℕ) → ℕ → ℕ → List ℕ
flatten ring zero p = []
flatten ring (suc n) p = ring p ++ flatten ring n (p + 1)

-- Each task of a list has priority `p`.
abbrev pub AllAt : (ℕ → ℕ) → ℕ → List ℕ → Type 0
AllAt pri p [] = Unit {0}
AllAt pri p (x ∷ l) = (pri x ≡ p) × AllAt pri p l

insert_behind :
    (pri : ℕ → ℕ) (t p : ℕ) (l m : List ℕ)
    → p ≤ pri t
    → AllAt pri p l
    → insert_tpri pri t (l ++ m) ≡ l ++ insert_tpri pri t m
unfolding insert_tpri
insert_behind pri t p [] m h a = refl
insert_behind pri t p (x ∷ l) m h a =
    let ge : ltb (pri t) (pri x) ≡ false = ground (arith, a.0) in
    rw ge (ap (◌∷◌ x) (insert_behind pri t p l m h a.1))

insert_front :
    (pri : ℕ → ℕ) (t p : ℕ) (l m : List ℕ)
    → pri t < p
    → AllAt pri p l
    → insert_tpri pri t m ≡ t ∷ m
    → insert_tpri pri t (l ++ m) ≡ t ∷ (l ++ m)
unfolding insert_tpri
insert_front pri t p [] m h a e = e
insert_front pri t p (x ∷ l) m h a e =
    let lt : ltb (pri t) (pri x) ≡ true = ground (arith, a.0) in rw lt refl

insert_above :
    (pri : ℕ → ℕ) (ring : ℕ → List ℕ) (t n p : ℕ)
    → ((q : ℕ) → AllAt pri q (ring q))
    → pri t < p
    → insert_tpri pri t (flatten ring n p) ≡ t ∷ flatten ring n p
unfolding insert_tpri flatten
insert_above pri ring t zero p a h = refl
insert_above pri ring t (suc n) p a h =
    insert_front pri t p (ring p) _ h (a p) (insert_above pri ring t n (p + 1) a (omega arith))

flatten_above :
    (ring : ℕ → List ℕ) (r n p : ℕ) (l : List ℕ)
    → r < p
    → flatten (update ring r l) n p ≡ flatten ring n p
unfolding flatten
flatten_above ring r zero p l h = refl
flatten_above ring r (suc n) p l h =
    rw (==-ne r p (omega arith), flatten_above ring r n (p + 1) l (omega arith)) refl

-- A task at the end of its ring is behind all of its priority or a higher one.
insert-flatten :
    (pri : ℕ → ℕ) (ring : ℕ → List ℕ) (t n p : ℕ)
    → ((q : ℕ) → AllAt pri q (ring q))
    → p ≤ pri t
    → pri t < p + n
    → insert_tpri pri t (flatten ring n p)
      ≡ flatten (update ring (pri t) (ring (pri t) ++ (t ∷ []))) n p
unfolding flatten
insert-flatten pri ring t zero p a h h' = absurd (omega arith)
insert-flatten pri ring t (suc n) p a h h' = elim (Bool-cases (pri t == p)) [
  | inl e ↦
      let here = eq_of_== (pri t) p e in
      insert_behind pri t p (ring p) _ h (a p)
      ∙ rw
          (
            e,
            insert_above pri ring t n (p + 1) a (omega arith),
            flatten_above ring (pri t) n (p + 1) (ring (pri t) ++ (t ∷ [])) (omega arith),
            here,
          )
          (sym (append_assoc (ring p) (t ∷ []) (flatten ring n (p + 1))))
  | inr e ↦
      let there = ne_of_== (pri t) p e in
      insert_behind pri t p (ring p) _ h (a p)
      ∙ rw e
          (ap (◌++◌ (ring p)) (insert-flatten pri ring t n (p + 1) a (omega arith) (omega arith)))
]

-- The ready tasks in the order in which they are chosen.
abbrev pub ready_list : Kernel → List ℕ
ready_list k = flatten (rdy_que k) num_pri 0

-- Each task is in the ring of its priority, and `top` holds the first tasks of the ready queue.
pub record IsReadyQueue (k : Kernel) : Type 0 where
  pub ranked : (p : ℕ) → AllAt (priority_of k) p (rdy_que k p)
  pub top_first : k.top ≡ cells k.num_proc (ready_list k)

AllAt-end :
    (pri : ℕ → ℕ) (p t : ℕ) (l : List ℕ) → pri t ≡ p → AllAt pri p l → AllAt pri p (l ++ (t ∷ []))
AllAt-end pri p t [] e a = (e, tt)
AllAt-end pri p t (x ∷ l) e a = (a.0, AllAt-end pri p t l e a.1)

AllAt-update :
    (pri : ℕ → ℕ) (ring : ℕ → List ℕ) (t p : ℕ)
    → ((q : ℕ) → AllAt pri q (ring q))
    → AllAt pri p (update ring (pri t) (ring (pri t) ++ (t ∷ [])) p)
AllAt-update pri ring t p a = elim (Bool-cases (pri t == p)) [
  | inl e ↦ rw (e, eq_of_== (pri t) p e) (AllAt-end pri p t (ring p) (eq_of_== (pri t) p e) (a p))
  | inr e ↦ rw e (a p)
]

-- What an insertion leaves in the fields that `IsReadyQueue` is about.
pub record Inserted (k k' : Kernel) (t : ℕ) : Type 0 where
  pub priorities : priority_of k' ≡ priority_of k
  pub rings :
      rdy_que k' ≡ update (rdy_que k) (priority_of k t) (rdy_que k (priority_of k t) ++ (t ∷ []))
  num_proc_same : k'.num_proc ≡ k.num_proc
  top_cells : k'.top ≡ insert_cell (λ x. ltb (priority_of k t) (priority_of k x)) t k.top

priorities_same : (k : Kernel) (t n : ℕ) → priority_of (set_slicecnt k t n) ≡ priority_of k
priorities_same k t n = fun_ext (λ u. elim (Bool-cases (t == u)) [
  | inl e ↦
      let z : (if t == u then record (k.tcb t) { slicecnt = n } else k.tcb u).priority
          ≡ (k.tcb u).priority =
        rw (e, eq_of_== t u e) refl in
      z
  | inr e ↦
      let z : (if t == u then record (k.tcb t) { slicecnt = n } else k.tcb u).priority
          ≡ (k.tcb u).priority =
        rw e refl in
      z
])

pub ready_queue_insert-Inserted : (k : Kernel) (t : ℕ) → Inserted k (ready_queue_insert k t) t
unfolding ready_queue_insert que_insert update_top_when_insert
ready_queue_insert-Inserted k t =
    let same = priorities_same k t 0 in
    let self = ap (λ f. f t) same in
    elim (Bool-cases ((set_slicecnt k t 0).tcb t).klocked) [
      | inl e ↦ rw e (record {
        priorities = same;
        rings = refl;
        num_proc_same = refl;
        top_cells = ap (λ f. insert_cell (λ x. ltb (f t) (f x)) t k.top) same;
      })
      | inr e ↦ rw e (record {
        priorities = same;
        rings = refl;
        num_proc_same = refl;
        top_cells = ap (λ f. insert_cell (λ x. ltb (f t) (f x)) t k.top) same;
      })
    ]

-- `ready_queue_insert` keeps the ready queue well formed for a task whose priority is in range: each
-- task is in the ring of its priority, and `top` holds the first `num_proc` tasks of the ready queue
-- in the order of the priorities, those of one priority in the order of their arrival.
pub ready_queue_insert-IsReadyQueue :
    (k : Kernel) (t : ℕ)
    → priority_of k t < num_pri
    → IsReadyQueue k
    → IsReadyQueue (ready_queue_insert k t)
ready_queue_insert-IsReadyQueue k t h w =
    let s = ready_queue_insert-Inserted k t in
    let pri = priority_of k in
    let ring = update (rdy_que k) (pri t) (rdy_que k (pri t) ++ (t ∷ [])) in
    record {
      ranked = λ p.
          subst (λ f. AllAt f p (rdy_que (ready_queue_insert k t) p)) (sym s.priorities)
            (subst (λ r. AllAt pri p (r p)) (sym s.rings)
              (AllAt-update pri (rdy_que k) t p w.ranked));
      top_first =
          s.top_cells
          ∙ (ap (insert_cell (λ x. ltb (pri t) (pri x)) t) w.top_first
              ∙ (insert_cell-cells pri t k.num_proc (ready_list k)
                  ∙ (ap (cells k.num_proc)
                        (insert-flatten pri (rdy_que k) t num_pri 0 w.ranked (omega arith) h)
                      ∙ (ap (λ r. cells k.num_proc (flatten r num_pri 0)) (sym s.rings)
                          ∙ ap (λ n. cells n (ready_list (ready_queue_insert k t)))
                              (sym s.num_proc_same)))));
    }
