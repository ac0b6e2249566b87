-- ===== src/Handler/Live.antt =====
-- kernel/tkernel/smp_src/time_calls.c: the marks `upd` and `act` of a handler queue, beside the
-- pending interrupt of its processor and the run of `handler_execution` on it.
use tkernel.Base.{
  ℕ, ◌≡◌, refl, sym, ◌∙◌, Bool, true, false, not, ◌&&◌, ◌||◌, List, [], ◌⊎◌, inl, inr, Bool-cases,
  ◌<◌, ◌≢◌, update_self, update_ne, ◌==◌, eq_of_==, ne_of_==,
}
use tkernel.Kernel.{Kernel, Hdrque, Tmeb, set_hdrque}
use tkernel.Handler.Queues.{checked, raised}

-- A queue with handlers is marked for the next check, or its processor is at work on it. At work is a
-- processor whose interrupt is pending or that runs the handlers, and not both at once.
pub record LiveAt (hq : Hdrque) (pending running : Bool) : Type 0 where
  pub seen : (hq.hdrque ≡ []) ⊎ ((hq.upd ≡ true) ⊎ (hq.act ≡ true))
  pub served : hq.act ≡ (pending || running)
  pub once : (pending && running) ≡ false

-- So for each of the `n` processors, where `r` tells which of them run their handlers.
pub record Live (n : ℕ) (r : ℕ → Bool) (k : Kernel) : Type 0 where
  pub procs : k.num_proc ≡ n
  pub at : (p : ℕ) → p < n → LiveAt (k.obj.handler_queue p) (k.obj.ipi_hdr p) (r p)

nobody_works :
    (pending running : Bool) → (pending || running) ≡ false → (pending ≡ false) × (running ≡ false)
nobody_works true c h = cc
nobody_works false true h = cc
nobody_works false false h = (refl, refl)

raised_marks : (u a : Bool) → (u && not a) ≡ true → a ≡ false
raised_marks u false h = refl
raised_marks true true h = cc
raised_marks false true h = cc

quiet_seen :
    {A : Type 0} (u a : Bool)
    → (u && not a) ≡ false
    → A ⊎ ((u ≡ true) ⊎ (a ≡ true))
    → A ⊎ ((false ≡ true) ⊎ (a ≡ true))
quiet_seen u true h s = inr (inr refl)
quiet_seen u false h (inl s) = inl s
quiet_seen true false h (inr s) = cc
quiet_seen false false h (inr s) = inr s

-- Where the check asks nobody, it leaves all as it was.
pub keeps_live :
    (hq : Hdrque) (pending running : Bool)
    → raised hq ≡ false
    → LiveAt hq pending running
    → LiveAt (checked hq) pending running
keeps_live hq pending running e h = record {
  seen = rw e (quiet_seen hq.upd hq.act e h.seen);
  served = rw e h.served;
  once = h.once;
}

-- Where it asks a processor, nothing is pending and nobody runs yet.
pub raised-idle :
    (hq : Hdrque) (pending running : Bool)
    → raised hq ≡ true
    → LiveAt hq pending running
    → (pending ≡ false) × (running ≡ false)
raised-idle hq pending running e h =
    nobody_works pending running (sym h.served ∙ raised_marks hq.upd hq.act e)

pub starts_live :
    (hq : Hdrque) (pending running : Bool)
    → raised hq ≡ true
    → (pending || running) ≡ true
    → (pending && running) ≡ false
    → LiveAt (checked hq) pending running
starts_live hq pending running e w o = record {
  seen = inr (inr (rw e refl));
  served = rw (e, w) refl;
  once = o;
}

or_true : (b : Bool) → (b || true) ≡ true
or_true true = refl
or_true false = refl

and_true : (b : Bool) → (b && true) ≡ b
and_true true = refl
and_true false = refl

-- One queue changes, and with it what its processor does.
pub Live-change :
    (n : ℕ) (r r1 : ℕ → Bool) (k : Kernel) (p : ℕ) (hq : Hdrque)
    → ((q : ℕ) → q ≢ p → r1 q ≡ r q)
    → (p < n → LiveAt hq (k.obj.ipi_hdr p) (r1 p))
    → Live n r k
    → Live n r1 (set_hdrque k p hq)
Live-change n r r1 k p hq same here h = record {
  procs = h.procs;
  at = λ q l. elim (Bool-cases (q == p)) [
    | inl e ↦
        let s = eq_of_== q p e in rw (s, update_self k.obj.handler_queue p hq) (here (rw (← s) l))
    | inr e ↦
        let ne = ne_of_== q p e in
        rw (update_ne k.obj.handler_queue p q hq (λ s. ne (sym s)), same q ne) (h.at q l)
  ];
}

-- A handler is added, and the queue marked.
pub queued-LiveAt :
    (hq : Hdrque) (l : List Tmeb) (pending running : Bool)
    → LiveAt hq pending running
    → LiveAt (record hq { hdrque = l; upd = true }) pending running
queued-LiveAt hq l pending running h = record {
  seen = inr (inl refl);
  served = h.served;
  once = h.once;
}

-- The processor that runs takes a handler off its queue.
pub taken-LiveAt :
    (hq : Hdrque) (l : List Tmeb) (pending : Bool)
    → LiveAt hq pending true
    → LiveAt (record hq { hdrque = l }) pending true
taken-LiveAt hq l pending h = record {
  seen = inr (inr (h.served ∙ or_true pending));
  served = h.served;
  once = h.once;
}

-- The processor that runs ends with an empty queue.
pub idle-LiveAt :
    (hq : Hdrque) (pending : Bool)
    → hq.hdrque ≡ []
    → LiveAt hq pending true
    → LiveAt (record hq { act = false }) pending false
idle-LiveAt hq pending e h =
    let off : pending ≡ false = sym (and_true pending) ∙ h.once in
    record { seen = inl e; served = rw off refl; once = rw off refl }

-- The processor takes its interrupt.
pub interrupt-LiveAt :
    (hq : Hdrque) (running : Bool) → LiveAt hq true running → LiveAt hq false true
interrupt-LiveAt hq running h = record { seen = h.seen; served = h.served; once = refl }
