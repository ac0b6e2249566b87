-- ===== src/MessageBuffer/Wakeup.antt =====
-- kernel/tkernel/smp_src/messagebuf.c, `mbf_wakeup`: the tasks that wait to send.
use tkernel.Base.{
  ℕ, ◌≡◌, refl, sym, ap, subst, ◌∙◌, true, List, [], ◌∷◌, ◌++◌, inl, inr, Bool-cases,
}
use tkernel.Str.{Mem}
use tkernel.Kernel.{Kernel, Tcb, e_ok, q_smbf}
use tkernel.Kernel.Frame.{core}
use tkernel.Kernel.Lists.{NotIn-append, NotIn, Distinct, Among-NotIn, remove-middle}
use tkernel.Wait.Frame.{released_tcb}
use tkernel.MessageBuffer.{wakeup_loop, mbf_wakeup}
use tkernel.MessageBuffer.Buffer.{mbf_free}
use tkernel.MessageBuffer.Messages.{Message, IsMbf}
use tkernel.MessageBuffer.Store.{msg_to_mbf_outside}
use tkernel.MessageBuffer.Pending.{
  pending, Sending, EachSending, FirstBlocked, Woken, sent_first, sent_first-Released,
  sent_first-IsMbf, next_area, next-EachSending, next_pendings,
}

append_one :
    (l : List Message) (x : Message) (r : List Message) → (l ++ (x ∷ [])) ++ r ≡ l ++ (x ∷ r)
append_one [] x r = refl
append_one (y ∷ l) x r = ap (◌∷◌ y) (append_one l x r)

Woken-cons :
    (k k' : Kernel) (i t : ℕ) (l : List Message) (w : List ℕ)
    → IsMbf k.mem (k.obj.mbfcb i) l
    → mbf_free (k.obj.mbfcb i) (k.tcb t).smbf_msgsz ≡ true
    → Sending k i t
    → NotIn t w
    → EachSending k i w
    → Woken (sent_first k i t) k' i (l ++ (pending k t ∷ [])) w
    → Woken k k' i l (t ∷ w)
Woken-cons k k' i t l w c free s n ss g =
    let r = sent_first-Released k i t in
    let ns : NotIn t (g.sent ++ g.left) = subst (NotIn t) (sym g.in_order) n in
    let es = subst (EachSending k i) (sym g.in_order) ss in
    record {
      sent = t ∷ g.sent;
      left = g.left;
      in_order = ap (◌∷◌ t) g.in_order;
      queue = g.queue;
      stored =
          subst (IsMbf k'.mem (k'.obj.mbfcb i))
            (append_one l (pending k t) _
              ∙ ap (λ r'. l ++ (pending k t ∷ r'))
                  (next_pendings k i t l g.sent g.left c free s ns es))
            g.stored;
      blocked = g.blocked;
      outside = λ a out.
          g.outside a (rw ((next_area k i t).0, (next_area k i t).1) out)
          ∙ ap (λ (m : Mem). m a) r.mem_same
          ∙ msg_to_mbf_outside k.mem (k.obj.mbfcb i) l (k.tcb t).smbf_msg (k.tcb t).smbf_msgsz a c
              free s.1 out;
      woken = λ u m. elim m [
        | inl e ↦ rw (← e) (g.asleep t (NotIn-append t g.sent g.left ns).0 ∙ r.tcb_self)
        | inr m' ↦
            g.woken u m'
            ∙ ap (λ (x : Tcb). core (released_tcb x e_ok))
                (r.tcb_other u (λ e.
                  Among-NotIn u g.sent m'
                    (subst (λ v. NotIn v g.sent) e (NotIn-append t g.sent g.left ns).0)))
      ];
      asleep = λ u h'. g.asleep u h'.1 ∙ r.tcb_other u h'.0;
    }

++-nil : (l : List Message) → l ++ [] ≡ l
++-nil [] = refl
++-nil (x ∷ l) = ap (◌∷◌ x) (++-nil l)

Woken-none :
    (k : Kernel) (i : ℕ) (l : List Message) (w : List ℕ)
    → k.que (q_smbf i) ≡ w
    → IsMbf k.mem (k.obj.mbfcb i) l
    → FirstBlocked k i w
    → Woken k k i l w
Woken-none k i l w e c b = record {
  sent = [];
  left = w;
  in_order = refl;
  queue = e;
  stored = subst (IsMbf k.mem (k.obj.mbfcb i)) (sym (++-nil l)) c;
  blocked = b;
  outside = λ a out. refl;
  woken = λ u m. absurd m;
  asleep = λ u h. refl;
}

wakeup_loop-Woken :
    (w : List ℕ) (k : Kernel) (i : ℕ) (l : List Message)
    → k.que (q_smbf i) ≡ w
    → Distinct w
    → IsMbf k.mem (k.obj.mbfcb i) l
    → EachSending k i w
    → Woken k (wakeup_loop k i w) i l w
unfolding wakeup_loop
wakeup_loop-Woken [] k i l e d c s = Woken-none k i l [] e c tt
wakeup_loop-Woken (t ∷ w) k i l e d c s =
    elim (Bool-cases (mbf_free (k.obj.mbfcb i) (k.tcb t).smbf_msgsz)) [
      | inr full ↦ rw full (Woken-none k i l (t ∷ w) e c full)
      | inl free ↦ rw free (
          Woken-cons k _ i t l w c free s.0 d.0 s.1 (
            wakeup_loop-Woken w (sent_first k i t) i (l ++ (pending k t ∷ []))
              ((sent_first-Released k i t).waits (q_smbf i) refl ∙ rw e (remove-middle [] t w d))
              d.1 (sent_first-IsMbf k i t l c free s.0) (next-EachSending k i t w d.0 s.1)))
    ]

-- On a buffer that holds the messages `l`, where the tasks that wait to send are distinct and each
-- message lies apart from the buffer and is not larger than a word can say: `mbf_wakeup` takes the
-- messages of the first tasks, in the order of the queue, behind those of `l`, releases just these
-- tasks with E_OK, and leaves the others waiting, of whom the first has a message without room. No
-- byte outside the buffer changes.
pub mbf_wakeup-Woken :
    (k : Kernel) (i : ℕ) (l : List Message)
    → Distinct (k.que (q_smbf i))
    → IsMbf k.mem (k.obj.mbfcb i) l
    → EachSending k i (k.que (q_smbf i))
    → Woken k (mbf_wakeup k i) i l (k.que (q_smbf i))
unfolding mbf_wakeup
mbf_wakeup-Woken k i l d c s = wakeup_loop-Woken (k.que (q_smbf i)) k i l refl d c s
