-- ===== src/Kernel/Queue.antt =====
-- include/sys/queue.h on the rings of `Kernel`.
use tkernel.Base.{
  ℕ, Bool, true, false, Option, none, some, List, [], ◌∷◌, ◌++◌, if◌then◌else◌, ◌==◌,
}
use tkernel.Kernel.{Kernel, Que, q_rdy, q_sem, q_flg, q_smbf, q_rmbf, q_mpf, q_mtx, q_mbx}

-- Whether two rings are the same.
abbrev pub que_eq : Que → Que → Bool
que_eq (q_rdy i) (q_rdy j) = i == j
que_eq (q_sem i) (q_sem j) = i == j
que_eq (q_flg i) (q_flg j) = i == j
que_eq (q_smbf i) (q_smbf j) = i == j
que_eq (q_rmbf i) (q_rmbf j) = i == j
que_eq (q_mpf i) (q_mpf j) = i == j
que_eq (q_mtx i) (q_mtx j) = i == j
que_eq (q_mbx i) (q_mbx j) = i == j
que_eq _ _ = false

abbrev pub set_que : Kernel → Que → List ℕ → Kernel
set_que k q l = record k { que = λ r. if que_eq q r then l else k.que r }

-- The list without an entry.
unfoldable pub remove : ℕ → List ℕ → List ℕ
remove t [] = []
remove t (x ∷ xs) = let rest = remove t xs in if x == t then rest else x ∷ rest

abbrev pub is_que_empty : List ℕ → Bool
is_que_empty [] = true
is_que_empty (x ∷ xs) = false

-- `QueInsert(&tcb->tskque, &head)`: the entry goes in front of the head, at the end of the ring.
unfoldable pub que_insert : Kernel → Que → ℕ → Kernel
que_insert k q t = set_que k q (k.que q ++ (t ∷ []))

-- `QueInsert(&tcb->tskque, head.next)`.
unfoldable pub que_insert_first : Kernel → Que → ℕ → Kernel
que_insert_first k q t = set_que k q (t ∷ k.que q)

-- `QueRemove(&tcb->tskque)`: the entry leaves the ring in which it is. Nothing happens to an entry
-- that is linked to itself only.
unfoldable pub que_remove : Kernel → ℕ → Kernel
que_remove k t = record k { que = λ q. remove t (k.que q) }

-- `QueRemove` of an entry that is known to be in the ring, and `QueRemoveNext` of its head.
unfoldable pub que_remove_from : Kernel → Que → ℕ → Kernel
que_remove_from k q t = set_que k q (remove t (k.que q))

-- The entry behind `t`, `none` where that is the head of the ring.
unfoldable pub next_in : ℕ → List ℕ → Option ℕ
next_in t [] = none
next_in t (x ∷ []) = none
next_in t (x ∷ y ∷ l) = let rest = next_in t (y ∷ l) in if x == t then some y else rest

abbrev pub first_of_que : List ℕ → Option ℕ
first_of_que [] = none
first_of_que (x ∷ xs) = some x
