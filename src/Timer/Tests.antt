-- ===== src/Timer/Tests.antt =====
-- The theorems on the timer queue at concrete events.
use tkernel.Base.{ℕ, List, [], ◌∷◌, arith}
use tkernel.Kernel.{Tmeb, cb_wait_release_tmout}
use tkernel.Timer.{enqueue_tmeb}
use tkernel.Timer.Order.{Placed, IsSorted, enqueue_tmeb-Placed}

abbrev event_of : ℕ → ℕ → Tmeb
event_of time t = record { time = time; callback = cb_wait_release_tmout t }

abbrev two_events : List Tmeb
two_events = event_of 10 3 ∷ event_of 30 4 ∷ []

two_events-IsSorted : IsSorted two_events
two_events-IsSorted = ((omega arith, tt), (tt, tt))

enqueue_tmeb-Placed_example :
    Placed (event_of 20 5) two_events (enqueue_tmeb (event_of 20 5) two_events)
enqueue_tmeb-Placed_example = enqueue_tmeb-Placed (event_of 20 5) two_events two_events-IsSorted
