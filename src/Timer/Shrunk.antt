-- ===== src/Timer/Shrunk.antt =====
-- kernel/tkernel/smp_src/timer.c: a timer queue that only loses events.
use tkernel.Base.{ℕ, ◌≤◌, ◌≡◌, ◌∙◌, List, [], ◌∷◌, arith, ap, Bool-cases, inl, inr, length}
use tkernel.Kernel.{Kernel, Er, Tmeb, Cyccb, Objects}
use tkernel.Timer.{drop_events, is_event_of}
use tkernel.Timer.Order.{IsSorted, drop_events-IsSorted}
use tkernel.Kernel.Frame.{Frame}
use tkernel.Wait.Frame.{Released}

-- A time and cyclic handlers that stay and a timer queue that may lose events. The arguments are the
-- three fields before and after.
pub record Shrunk (n : ℕ) (l : List Tmeb) (c : ℕ → Cyccb) (n' : ℕ) (l' : List Tmeb) (c' : ℕ → Cyccb)
    : Type 0 where
  pub time : n' ≡ n
  pub cyc : c' ≡ c
  pub fewer : length l' ≤ length l
  pub sorted : IsSorted l → IsSorted l'

abbrev pub Shrinks : Kernel → Kernel → Type 0
Shrinks k k' =
    Shrunk k.current_time k.timer_queue k.obj.cyccb k'.current_time k'.timer_queue k'.obj.cyccb

pub Shrinks-same :
    (k k' : Kernel)
    → k'.current_time ≡ k.current_time
    → k'.timer_queue ≡ k.timer_queue
    → k'.obj.cyccb ≡ k.obj.cyccb
    → Shrinks k k'
Shrinks-same k k' t q c = record {
  time = t;
  cyc = c;
  fewer = rw q (omega arith);
  sorted = λ s. rw q s;
}

pub Shrunk-trans :
    {n n1 n2 : ℕ} {l l1 l2 : List Tmeb} {c c1 c2 : ℕ → Cyccb}
    → Shrunk n l c n1 l1 c1
    → Shrunk n1 l1 c1 n2 l2 c2
    → Shrunk n l c n2 l2 c2
Shrunk-trans f g = record {
  time = g.time ∙ f.time;
  cyc = g.cyc ∙ f.cyc;
  fewer = let a = f.fewer in let b = g.fewer in omega arith;
  sorted = λ s. g.sorted (f.sorted s);
}

length-drop_events : (t : ℕ) (l : List Tmeb) → length (drop_events t l) ≤ length l
unfolding drop_events
length-drop_events t [] = omega arith
length-drop_events t (e ∷ l) =
    let r = length-drop_events t l in
    elim (Bool-cases (is_event_of t e.callback)) [
      | inl own ↦ rw own (omega arith)
      | inr other ↦ rw other (omega arith)
    ]

pub Released-Shrinks : {k k' : Kernel} {t : ℕ} {e : Er} → Released k k' t e → Shrinks k k'
Released-Shrinks {k} {k'} {t} r = record {
  time = r.time_same;
  cyc = ap (λ (o : Objects). o.cyccb) r.obj_same;
  fewer = rw r.timer_drop (length-drop_events t k.timer_queue);
  sorted = λ s. rw r.timer_drop (drop_events-IsSorted t k.timer_queue s).0;
}

pub Frame-Shrinks : {k k' : Kernel} → Frame k k' → Shrinks k k'
Frame-Shrinks {k} {k'} f =
    Shrinks-same k k' f.time_same f.timer_same (ap (λ (o : Objects). o.cyccb) f.obj_same)
