-- ===== src/Handler/Calls.antt =====
-- kernel/tkernel/smp_src/time_calls.c: the loop that calls the handlers of a processor.
use tkernel.Base.{
  ℕ, zero, suc, ◌+◌, ◌≤◌, ◌<◌, ◌≡◌, refl, arith, ap, Bool, true, false, List, [], ◌∷◌, Option, none,
  some, List-cases, inl, inr, if◌then◌else◌, length, update_self, sym, subst,
}
use tkernel.Kernel.{
  Kernel, Tmeb, Hdrque, Callback, cb_null, cb_wait_release_tmout, cb_distribute_cychdr,
  cb_call_cychdr, cb_distribute_almhdr, cb_call_almhdr, set_hdrque, set_cyccb, set_almcb,
}
use tkernel.Timer.{timer_insert_abs}
use tkernel.Handler.{
  cyc_timer_insert, cyc_again, call_cychdr, call_almhdr, call_handler, run_handlers,
  handler_execution,
}

-- `P` holds of the state in which a loop ends, if it does.
abbrev pub InEnd : (Kernel → Type 0) → Option Kernel → Type 0
InEnd P none = Unit {0}
InEnd P (some k) = P k

if_both : (P : Kernel → Type 0) (b : Bool) (x y : Kernel) → P x → P y → P (if b then x else y)
if_both P true x y px py = px
if_both P false x y px py = py

abbrev pub start_cyc : Kernel → ℕ → Kernel
start_cyc k i = let k1 = cyc_again k i in set_cyccb k1 i (record (k1.obj.cyccb i) { run = true })

abbrev pub start_alm : Kernel → ℕ → Kernel
start_alm k i = set_almcb k i (record (k.obj.almcb i) { sta = false; run = true })

-- The queue of processor `p` without its head.
abbrev pub taken : Kernel → ℕ → List Tmeb → Kernel
taken k p l = set_hdrque k p (record (k.obj.handler_queue p) { hdrque = l })

abbrev pub idle : Kernel → ℕ → Kernel
idle k p = set_hdrque k p (record (k.obj.handler_queue p) { act = false })

-- What the start of a handler, its run and the reset of its marks keep.
pub record Lasting (user : ℕ → ℕ → Kernel → Kernel) (P : Kernel → Type 0) : Type 0 where
  pub cyc_starts : (k : Kernel) (i : ℕ) → P k → P (start_cyc k i)
  pub alm_starts : (k : Kernel) (i : ℕ) → P k → P (start_alm k i)
  pub runs : (hdr exinf : ℕ) (k : Kernel) → P k → P (user hdr exinf k)
  pub cyc_ends :
      (k : Kernel) (i : ℕ) → P k → P (set_cyccb k i (record (k.obj.cyccb i) { run = false }))
  pub alm_ends :
      (k : Kernel) (i : ℕ) → P k → P (set_almcb k i (record (k.obj.almcb i) { run = false }))

module _ (user : ℕ → ℕ → Kernel → Kernel) where
  pub call_handler-Lasting :
      (P : Kernel → Type 0) (c : Callback) (k : Kernel)
      → Lasting user P
      → P k
      → P (call_handler user c k)
  unfolding call_handler call_cychdr call_almhdr
  call_handler-Lasting P cb_null k s h = h
  call_handler-Lasting P (cb_wait_release_tmout t) k s h = h
  call_handler-Lasting P (cb_distribute_cychdr i) k s h = h
  call_handler-Lasting P (cb_distribute_almhdr i) k s h = h
  call_handler-Lasting P (cb_call_cychdr i) k s h =
      let r = s.runs _ _ _ (s.cyc_starts k i h) in if_both P _ _ _ (s.cyc_ends _ i r) r
  call_handler-Lasting P (cb_call_almhdr i) k s h =
      let r = s.runs _ _ _ (s.alm_starts k i h) in if_both P _ _ _ (s.alm_ends _ i r) r

  -- What holds at the end of the loop, for a property `P` that every round keeps.
  pub run_handlers-InEnd :
      (P Q : Kernel → Type 0) (p : ℕ)
      → ((k : Kernel) (e : Tmeb) (l : List Tmeb)
          → (k.obj.handler_queue p).hdrque ≡ e ∷ l
          → P k
          → P (call_handler user e.callback (taken k p l)))
      → ((k : Kernel) → (k.obj.handler_queue p).hdrque ≡ [] → P k → Q (idle k p))
      → (n : ℕ) (k : Kernel) → P k
      → InEnd Q (run_handlers user n k p)
  unfolding run_handlers
  run_handlers-InEnd P Q p round last zero k h = tt
  run_handlers-InEnd P Q p round last (suc n) k h =
      elim (List-cases (k.obj.handler_queue p).hdrque) [
        | inl q ↦ rw (run_handlers, q) (last k q h)
        | inr (e, l, q) ↦
            rw (run_handlers, q) (run_handlers-InEnd P Q p round last n _ (round k e l q h))
      ]

abbrev pub queue_of : ℕ → Kernel → List Tmeb
queue_of p k = (k.obj.handler_queue p).hdrque

-- The run of the handlers of processor `p` from one state to another, with the events in the order in
-- which they are called: the first of the queue as it stands, until the queue is empty.
pub data Calls (user : ℕ → ℕ → Kernel → Kernel) (p : ℕ) : Kernel → List Tmeb → Kernel → Type 0 where
  ends : {k : Kernel} → queue_of p k ≡ [] → Calls user p k [] (idle k p)
  calls :
      {k end : Kernel} (e : Tmeb) (l called : List Tmeb)
      → queue_of p k ≡ e ∷ l
      → Calls user p (call_handler user e.callback (taken k p l)) called end
      → Calls user p k (e ∷ called) end

-- A run of the handlers of processor `p` that ends, with an empty queue and the processor not at
-- work on it, after each event that was taken off the queue was called.
pub record Drained (user : ℕ → ℕ → Kernel → Kernel) (p : ℕ) (k : Kernel) (r : Option Kernel)
    : Type 0 where
  pub end : Kernel
  pub returns : r ≡ some end
  pub empty : (end.obj.handler_queue p).hdrque ≡ []
  pub idle : (end.obj.handler_queue p).act ≡ false
  pub called : List Tmeb
  pub run : Calls user p k called end

next_Drained :
    (user : ℕ → ℕ → Kernel → Kernel) (p n : ℕ) (k : Kernel) (e : Tmeb) (l : List Tmeb)
    → queue_of p k ≡ e ∷ l
    → Drained user p
        (call_handler user e.callback (taken k p l))
        (run_handlers user n (call_handler user e.callback (taken k p l)) p)
    → Drained user p k (run_handlers user (suc n) k p)
unfolding run_handlers
next_Drained user p n k e l q d = record {
  end = d.end;
  returns = rw (run_handlers, q) d.returns;
  empty = d.empty;
  idle = d.idle;
  called = e ∷ d.called;
  run = calls e l d.called q d.run;
}

-- A bound `more` for the handlers that are still queued on processor `p` while others run: a run of a
-- handler uses up what it queues, and the kernel's own steps around the run add nothing.
pub record Limited (user : ℕ → ℕ → Kernel → Kernel) (p : ℕ) (more : Kernel → ℕ) : Type 0 where
  pub runs :
      (hdr exinf : ℕ) (k : Kernel)
      → length (queue_of p (user hdr exinf k)) + more (user hdr exinf k)
        ≤ length (queue_of p k) + more k
  pub takes : (k : Kernel) (l : List Tmeb) → more (taken k p l) ≤ more k
  pub cyc_starts : (k : Kernel) (i : ℕ) → more (start_cyc k i) ≤ more k
  pub alm_starts : (k : Kernel) (i : ℕ) → more (start_alm k i) ≤ more k
  pub cyc_ends :
      (k : Kernel) (i : ℕ) → more (set_cyccb k i (record (k.obj.cyccb i) { run = false })) ≤ more k
  pub alm_ends :
      (k : Kernel) (i : ℕ) → more (set_almcb k i (record (k.obj.almcb i) { run = false })) ≤ more k

module _ (user : ℕ → ℕ → Kernel → Kernel) (p : ℕ) (more : Kernel → ℕ)
    (b : Limited user p more) where
  -- What is queued and may still be.
  abbrev pub load : Kernel → ℕ
  load k = length (queue_of p k) + more k

  load_Lasting : (n : ℕ) → Lasting user (λ k. load k ≤ n)
  unfolding cyc_timer_insert timer_insert_abs
  load_Lasting n = record {
    cyc_starts = λ k i h. let s = b.cyc_starts k i in omega arith;
    alm_starts = λ k i h. let s = b.alm_starts k i in omega arith;
    runs = λ hdr exinf k h. let s = b.runs hdr exinf k in omega arith;
    cyc_ends = λ k i h. let s = b.cyc_ends k i in omega arith;
    alm_ends = λ k i h. let s = b.alm_ends k i in omega arith;
  }

  pub run_handlers-Drained :
      (n : ℕ) (k : Kernel) → load k < n → Drained user p k (run_handlers user n k p)
  unfolding run_handlers
  run_handlers-Drained zero k f = absurd (omega arith)
  run_handlers-Drained (suc n) k f = elim (List-cases (queue_of p k)) [
    | inl q ↦ record {
      end = idle k p;
      returns =
          subst
            (λ l.
              elim l [
                | [] ↦ some (idle k p)
                | e ∷ m ↦ run_handlers user n (call_handler user e.callback (taken k p m)) p
              ]
              ≡ some (idle k p))
            (sym q) refl;
      empty = rw (update_self k.obj.handler_queue p _) q;
      idle = rw (update_self k.obj.handler_queue p _) refl;
      called = [];
      run = ends q;
    }
    | inr (e, l, q) ↦
        let k1 = taken k p l in
        let tail : queue_of p k1 ≡ l =
          ap (λ (x : Hdrque). x.hdrque) (update_self k.obj.handler_queue p _) in
        let short = ap (λ (x : List Tmeb). length x) tail in
        let long = ap (λ (x : List Tmeb). length x) q in
        let spare = b.takes k l in
        let rest =
          call_handler-Lasting user (λ x. load x ≤ load k1) e.callback k1 (load_Lasting (load k1))
            (omega arith) in
        next_Drained user p n k e l q
          (run_handlers-Drained n (call_handler user e.callback k1) (omega arith))
  ]

  -- Where there is a bound for the handlers that are still queued on a processor while others run, and
  -- the fuel is above this bound and the length of the queue together, `handler_execution` returns.
  -- It has taken the handlers off the queue from its head, one by one as the queue then stood, and
  -- called each of them; the queue is then empty and the processor not at work on it.
  pub handler_execution-Drained :
      (fuel : ℕ) (k : Kernel) → load k < fuel → Drained user p k (handler_execution user fuel k p)
  unfolding handler_execution
  handler_execution-Drained fuel k f = run_handlers-Drained fuel k f
