-- ===== src/Wait/Tests.antt =====
-- The theorems on wait queues at concrete queues.
use tkernel.Base.{[], ◌∷◌, arith}
use tkernel.Wait.{insert_tpri}
use tkernel.Wait.Tpri.{Queued, insert_tpri-Queued}

insert_tpri-Queued_example :
    Queued (λ t. t) 5 (2 ∷ 5 ∷ 9 ∷ []) (insert_tpri (λ t. t) 5 (2 ∷ 5 ∷ 9 ∷ []))
insert_tpri-Queued_example =
    insert_tpri-Queued (λ t. t) 5 (2 ∷ 5 ∷ 9 ∷ [])
      ((omega arith, (omega arith, tt)), ((omega arith, tt), (tt, tt)))
