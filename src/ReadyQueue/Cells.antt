-- ===== src/ReadyQueue/Cells.antt =====
-- kernel/tkernel/smp_src/ready_queue.h: the array `top` against the list of the ready tasks.
use tkernel.Base.{
  ℕ, zero, suc, ◌≡◌, inl, inr, refl, ap, Option, none, some, List, [], ◌∷◌, ltb, Bool-cases,
}
use tkernel.Wait.{insert_tpri}
use tkernel.ReadyQueue.{insert_cell, drop_last}

-- The first `n` tasks of a list, and NULL where there are none.
abbrev pub cells : ℕ → List ℕ → List (Option ℕ)
cells zero l = []
cells (suc n) [] = none ∷ cells n []
cells (suc n) (x ∷ l) = some x ∷ cells n l

drop_last-cells : (n : ℕ) (l : List ℕ) → drop_last (cells (suc n) l) ≡ cells n l
unfolding drop_last
drop_last-cells zero [] = refl
drop_last-cells zero (x ∷ l) = refl
drop_last-cells (suc n) [] = ap (◌∷◌ none) (drop_last-cells n [])
drop_last-cells (suc n) (x ∷ []) = ap (◌∷◌ (some x)) (drop_last-cells n [])
drop_last-cells (suc n) (x ∷ y ∷ l) = ap (◌∷◌ (some x)) (drop_last-cells n (y ∷ l))

-- The loop of `update_top_when_insert` on the first `n` tasks of a list gives the first `n` tasks
-- of the list in which the new task stands in front of the first task of a lower priority.
pub insert_cell-cells :
    (pri : ℕ → ℕ) (t n : ℕ) (l : List ℕ)
    → insert_cell (λ x. ltb (pri t) (pri x)) t (cells n l) ≡ cells n (insert_tpri pri t l)
unfolding insert_cell insert_tpri
insert_cell-cells pri t zero l = refl
insert_cell-cells pri t (suc n) [] = ap (◌∷◌ (some t)) (drop_last-cells n [])
insert_cell-cells pri t (suc n) (x ∷ l) = elim (Bool-cases (ltb (pri t) (pri x))) [
  | inl lt ↦ rw (lt) (ap (◌∷◌ (some t)) (drop_last-cells n (x ∷ l)))
  | inr ge ↦ rw (ge) (ap (◌∷◌ (some x)) (insert_cell-cells pri t n l))
]
