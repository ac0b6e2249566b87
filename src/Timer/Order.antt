-- ===== src/Timer/Order.antt =====
-- kernel/tkernel/smp_src/timer.c: the order of the timer queue.
use tkernel.Base.{
  ℕ, ◌+◌, ◌≤◌, ◌≡◌, inl, inr, refl, ap, false, List, [], ◌∷◌, ◌++◌, arith, ltb, Bool-cases, ltb→lt,
  ltb→ge,
}
use tkernel.Kernel.{Tmeb}
use tkernel.Timer.{enqueue_tmeb, drop_events, is_event_of}

-- Each event of a list is due at `m` or later.
abbrev pub AllFrom : ℕ → List Tmeb → Type 0
AllFrom m [] = Unit {0}
AllFrom m (e ∷ l) = (m ≤ e.time) × AllFrom m l

abbrev pub IsSorted : List Tmeb → Type 0
IsSorted [] = Unit {0}
IsSorted (e ∷ l) = AllFrom e.time l × IsSorted l

-- The events of a list are due at `m` at the latest.
abbrev pub AllTo : ℕ → List Tmeb → Type 0
AllTo m [] = Unit {0}
AllTo m (e ∷ l) = (e.time ≤ m) × AllTo m l

pub AllFrom-le : (m n : ℕ) (l : List Tmeb) → m ≤ n → AllFrom n l → AllFrom m l
AllFrom-le m n [] h a = tt
AllFrom-le m n (e ∷ l) h a = (ground (arith, a.0), AllFrom-le m n l h a.1)

pub AllFrom-enqueue :
    (m : ℕ) (event : Tmeb) (l : List Tmeb)
    → m ≤ event.time
    → AllFrom m l
    → AllFrom m (enqueue_tmeb event l)
unfolding enqueue_tmeb
AllFrom-enqueue m event [] h a = (h, tt)
AllFrom-enqueue m event (q ∷ l) h a = elim (Bool-cases (ltb event.time q.time)) [
  | inl lt ↦ rw lt (h, a)
  | inr ge ↦ rw ge (a.0, AllFrom-enqueue m event l h a.1)
]

-- How an event enters the queue: the events in front of it are due no later, those behind it later.
pub record Placed (event : Tmeb) (l l' : List Tmeb) : Type 0 where
  pub front : List Tmeb
  pub back : List Tmeb
  pub before : l ≡ front ++ back
  pub after : l' ≡ front ++ (event ∷ back)
  pub no_later : AllTo event.time front
  pub later : AllFrom (event.time + 1) back
  pub sorted : IsSorted l'

-- In a queue that is sorted by time `enqueue_tmeb` puts the new event behind all events that are
-- due no later, in front of all that are due later, keeps the others in their order, and the queue
-- stays sorted.
pub enqueue_tmeb-Placed :
    (event : Tmeb) (l : List Tmeb) → IsSorted l → Placed event l (enqueue_tmeb event l)
unfolding enqueue_tmeb
enqueue_tmeb-Placed event [] s = record {
  front = [];
  back = [];
  before = refl;
  after = refl;
  no_later = tt;
  later = tt;
  sorted = (tt, tt);
}
enqueue_tmeb-Placed event (q ∷ l) s = elim (Bool-cases (ltb event.time q.time)) [
  | inl lt ↦
      let le = ltb→lt event.time q.time lt in
      rw lt (record {
        front = [];
        back = q ∷ l;
        before = refl;
        after = refl;
        no_later = tt;
        later = (omega arith, AllFrom-le (event.time + 1) q.time l (omega arith) s.0);
        sorted = ((omega arith, AllFrom-le event.time q.time l (omega arith) s.0), s);
      })
  | inr ge ↦
      let p = enqueue_tmeb-Placed event l s.1 in
      rw ge (record {
        front = q ∷ p.front;
        back = p.back;
        before = ap (◌∷◌ q) p.before;
        after = ap (◌∷◌ q) p.after;
        no_later = (ltb→ge event.time q.time ge, p.no_later);
        later = p.later;
        sorted = (AllFrom-enqueue q.time event l (ltb→ge event.time q.time ge) s.0, p.sorted);
      })
]

AllFrom-drop : (m t : ℕ) (l : List Tmeb) → AllFrom m l → AllFrom m (drop_events t l)
unfolding drop_events
AllFrom-drop m t [] a = tt
AllFrom-drop m t (e ∷ l) a = elim (Bool-cases (is_event_of t e.callback)) [
  | inl own ↦ rw own (AllFrom-drop m t l a.1)
  | inr other ↦ rw other (a.0, AllFrom-drop m t l a.1)
]

-- No event of a list releases the task.
abbrev pub NoEventOf : ℕ → List Tmeb → Type 0
NoEventOf t [] = Unit {0}
NoEventOf t (e ∷ l) = (is_event_of t e.callback ≡ false) × NoEventOf t l

-- `timer_delete` leaves a queue that was sorted by time sorted, and without an event of the task.
pub drop_events-IsSorted :
    (t : ℕ) (l : List Tmeb)
    → IsSorted l
    → IsSorted (drop_events t l) × NoEventOf t (drop_events t l)
unfolding drop_events
drop_events-IsSorted t [] s = (tt, tt)
drop_events-IsSorted t (e ∷ l) s =
    let r = drop_events-IsSorted t l s.1 in
    elim (Bool-cases (is_event_of t e.callback)) [
      | inl own ↦ rw own r
      | inr other ↦ rw other ((AllFrom-drop e.time t l s.0, r.0), (other, r.1))
    ]
