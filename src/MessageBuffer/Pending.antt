-- ===== src/MessageBuffer/Pending.antt =====
-- kernel/tkernel/smp_src/messagebuf.c, `mbf_wakeup`: the message of the first task that
-- waits to send.
use tkernel.Base.{
  ℕ, ◌+◌, ◌^◌, ◌<◌, ◌≤◌, ◌⊎◌, ◌≡◌, ◌≢◌, refl, sym, ap, true, false, List, [], ◌∷◌, ◌++◌, arith,
  ==-refl,
}
use tkernel.Str.{Mem}
use tkernel.Kernel.{Kernel, Tcb, Mbfcb, e_ok, q_smbf, set_mbfcb}
use tkernel.Kernel.Frame.{core}
use tkernel.Kernel.Lists.{NotIn, Among}
use tkernel.Wait.Frame.{Released, wait_release_ok-Released, released_tcb}
use tkernel.Wait.{wait_release_ok}
use tkernel.MessageBuffer.Buffer.{mbf_free, msg_to_mbf}
use tkernel.MessageBuffer.Ring.{Apart}
use tkernel.MessageBuffer.Messages.{Message, message_at, message_at_same, IsMbf}
use tkernel.MessageBuffer.Store.{msg_to_mbf-IsMbf, msg_to_mbf_outside}

-- The message that a task waits to send, and what a call that waits has made sure of.
abbrev pub pending : Kernel → ℕ → Message
pending k t = message_at k.mem (k.tcb t).smbf_msg (k.tcb t).smbf_msgsz

abbrev pub pendings : Kernel → List ℕ → List Message
pendings k [] = []
pendings k (t ∷ l) = pending k t ∷ pendings k l

abbrev pub Sending : Kernel → ℕ → ℕ → Type 0
Sending k i t =
    ((k.tcb t).smbf_msgsz < 2 ^ 32)
    × Apart (k.tcb t).smbf_msg (k.tcb t).smbf_msgsz (k.obj.mbfcb i).buffer (k.obj.mbfcb i).bufsz

abbrev pub EachSending : Kernel → ℕ → List ℕ → Type 0
EachSending k i [] = Unit {0}
EachSending k i (t ∷ l) = Sending k i t × EachSending k i l

-- The first task of the list, if there is one, has a message that does not fit.
abbrev pub FirstBlocked : Kernel → ℕ → List ℕ → Type 0
FirstBlocked k i [] = Unit {0}
FirstBlocked k i (t ∷ l) = mbf_free (k.obj.mbfcb i) (k.tcb t).smbf_msgsz ≡ false

-- `k'` is `k` after the tasks `sent`, the first of `w`, have left their messages in the buffer,
-- behind those of `l`.
pub record Woken (k k' : Kernel) (i : ℕ) (l : List Message) (w : List ℕ) : Type 0 where
  pub sent : List ℕ
  pub left : List ℕ
  pub in_order : sent ++ left ≡ w
  pub queue : k'.que (q_smbf i) ≡ left
  pub stored : IsMbf k'.mem (k'.obj.mbfcb i) (l ++ pendings k sent)
  pub blocked : FirstBlocked k' i left
  pub outside :
      (a : ℕ)
      → (a < (k.obj.mbfcb i).buffer) ⊎ ((k.obj.mbfcb i).buffer + (k.obj.mbfcb i).bufsz ≤ a)
      → k'.mem a ≡ k.mem a
  pub woken : (u : ℕ) → Among u sent → core (k'.tcb u) ≡ core (released_tcb (k.tcb u) e_ok)
  pub asleep : (u : ℕ) → NotIn u sent → core (k'.tcb u) ≡ core (k.tcb u)

-- The buffer and the memory with the first task's message.
abbrev pub with_first : Kernel → ℕ → ℕ → Mem × Mbfcb
with_first k i t = msg_to_mbf k.mem (k.obj.mbfcb i) (k.tcb t).smbf_msg (k.tcb t).smbf_msgsz

-- The state in which the first task has been released.
abbrev pub sent_first : Kernel → ℕ → ℕ → Kernel
sent_first k i t =
    wait_release_ok (record (set_mbfcb k i (with_first k i t).1) { mem = (with_first k i t).0 }) t

pub sent_first-Released :
    (k : Kernel) (i t : ℕ)
    → Released
        (record (set_mbfcb k i (with_first k i t).1) { mem = (with_first k i t).0 })
        (sent_first k i t)
        t
        e_ok
sent_first-Released k i t = wait_release_ok-Released _ t

pub sent_first-IsMbf :
    (k : Kernel) (i t : ℕ) (l : List Message)
    → IsMbf k.mem (k.obj.mbfcb i) l
    → mbf_free (k.obj.mbfcb i) (k.tcb t).smbf_msgsz ≡ true
    → Sending k i t
    → IsMbf (sent_first k i t).mem ((sent_first k i t).obj.mbfcb i) (l ++ (pending k t ∷ []))
sent_first-IsMbf k i t l c free s =
    let r = sent_first-Released k i t in
    rw (r.mem_same, r.obj_same, ==-refl i)
      (msg_to_mbf-IsMbf k.mem (k.obj.mbfcb i) l (k.tcb t).smbf_msg (k.tcb t).smbf_msgsz c free s.0
        s.1)

-- The tasks behind the first are as they were, and so are their messages.
pub next_fields :
    (k : Kernel) (i t u : ℕ)
    → t ≢ u
    → (((sent_first k i t).tcb u).smbf_msg ≡ (k.tcb u).smbf_msg)
      × (((sent_first k i t).tcb u).smbf_msgsz ≡ (k.tcb u).smbf_msgsz)
next_fields k i t u ne =
    let e = (sent_first-Released k i t).tcb_other u ne in
    (ap (λ (c : Tcb). c.smbf_msg) e, ap (λ (c : Tcb). c.smbf_msgsz) e)

pub next_area :
    (k : Kernel) (i t : ℕ)
    → (((sent_first k i t).obj.mbfcb i).buffer ≡ (k.obj.mbfcb i).buffer)
      × (((sent_first k i t).obj.mbfcb i).bufsz ≡ (k.obj.mbfcb i).bufsz)
unfolding msg_to_mbf
next_area k i t = let r = sent_first-Released k i t in rw (r.obj_same, ==-refl i) (refl, refl)

pub next-Sending : (k : Kernel) (i t u : ℕ) → t ≢ u → Sending k i u → Sending (sent_first k i t) i u
next-Sending k i t u ne s =
    let f = next_fields k i t u ne in let a = next_area k i t in rw (f.0, f.1, a.0, a.1) s

pub next_pending :
    (k : Kernel) (i t u : ℕ) (l : List Message)
    → IsMbf k.mem (k.obj.mbfcb i) l
    → mbf_free (k.obj.mbfcb i) (k.tcb t).smbf_msgsz ≡ true
    → Sending k i t
    → t ≢ u
    → Sending k i u
    → pending (sent_first k i t) u ≡ pending k u
next_pending k i t u l c free s ne su =
    let r = sent_first-Released k i t in
    let f = next_fields k i t u ne in
    rw (f.0, f.1, r.mem_same)
      (message_at_same k.mem (with_first k i t).0 (k.tcb u).smbf_msg (k.tcb u).smbf_msgsz (λ j lj.
        msg_to_mbf_outside k.mem (k.obj.mbfcb i) l (k.tcb t).smbf_msg (k.tcb t).smbf_msgsz _ c free
          s.1 (ground arith)))

pub next-EachSending :
    (k : Kernel) (i t : ℕ) (w : List ℕ)
    → NotIn t w
    → EachSending k i w
    → EachSending (sent_first k i t) i w
next-EachSending k i t [] n s = tt
next-EachSending k i t (u ∷ w) n s =
    (next-Sending k i t u (λ e. n.0 (sym e)) s.0, next-EachSending k i t w n.1 s.1)

pub next_pendings :
    (k : Kernel) (i t : ℕ) (l : List Message) (w rest : List ℕ)
    → IsMbf k.mem (k.obj.mbfcb i) l
    → mbf_free (k.obj.mbfcb i) (k.tcb t).smbf_msgsz ≡ true
    → Sending k i t
    → NotIn t (w ++ rest)
    → EachSending k i (w ++ rest)
    → pendings (sent_first k i t) w ≡ pendings k w
next_pendings k i t l [] rest c free s n ss = refl
next_pendings k i t l (u ∷ w) rest c free s n ss = cc (
  next_pending k i t u l c free s (λ e. n.0 (sym e)) ss.0,
  next_pendings k i t l w rest c free s n.1 ss.1,
)
