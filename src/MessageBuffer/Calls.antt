-- ===== src/MessageBuffer/Calls.antt =====
-- kernel/tkernel/smp_src/messagebuf.c: sending and receiving, behind the checks of the arguments.
use tkernel.Base.{
  ℕ, ◌+◌, ◌^◌, ◌≤◌, ◌<◌, ◌≡◌, ◌⊎◌, refl, ap, ◌∙◌, true, false, List, [], ◌∷◌, ◌++◌, arith, inl, inr,
  ==-refl, Option, none, some, ℤ,
}
use tkernel.Str.{Mem}
use tkernel.Kernel.{Kernel, Er, Mbfcb, e_ok, done, q_smbf, q_rmbf, set_mbfcb}
use tkernel.Kernel.Lists.{Distinct}
use tkernel.Wait.{gcb_top_of_wait_queue}
use tkernel.MessageBuffer.{
  mbf_wakeup, store_msg, fetch_msg, send_or_wait, receive_or_wait, first_to_send,
}
use tkernel.MessageBuffer.Buffer.{mbf_free, mbf_empty, msg_to_mbf, mbf_to_msg}
use tkernel.MessageBuffer.Ring.{Apart}
use tkernel.MessageBuffer.Messages.{Message, message_at, used, IsMbf}
use tkernel.MessageBuffer.Store.{msg_to_mbf-IsMbf}
use tkernel.MessageBuffer.Wakeup.{mbf_wakeup-Woken}
use tkernel.MessageBuffer.Pending.{EachSending, Woken}
use tkernel.MessageBuffer.Fetch.{mbf_to_msg_takes}

first_idle :
    (k : Kernel) (run : Option ℕ) (i : ℕ) → k.que (q_smbf i) ≡ [] → first_to_send k run i ≡ true
unfolding gcb_top_of_wait_queue
first_idle k none i e = refl
first_idle k (some t) i e = rw (e, gcb_top_of_wait_queue) (==-refl t)

-- A message that nobody waits for goes to the buffer, if no task waits to send.
send_idle :
    (k : Kernel) (run : Option ℕ) (i msg n : ℕ) (tmout : ℤ)
    → k.que (q_rmbf i) ≡ []
    → k.que (q_smbf i) ≡ []
    → mbf_free (k.obj.mbfcb i) n ≡ true
    → send_or_wait k run i msg n tmout ≡ (store_msg k i msg n, e_ok)
unfolding send_or_wait
send_idle k run i msg n tmout unheard idle free =
    rw (unheard, send_or_wait, first_idle k run i idle, free) refl

-- The state in which the first message has left the buffer.
abbrev pub fetched : Kernel → ℕ → ℕ → Kernel
fetched k i out = record (set_mbfcb k i (mbf_to_msg k.mem (k.obj.mbfcb i) out).1) {
  mem = (mbf_to_msg k.mem (k.obj.mbfcb i) out).0;
}

not_empty :
    (m : Mem) (cb : Mbfcb) (x : Message) (l : List Message)
    → IsMbf m cb (x ∷ l)
    → mbf_empty cb ≡ false
unfolding used
not_empty m cb x l c = ground (arith, c.room)

same_Sending :
    (k : Kernel) (i out : ℕ) (w : List ℕ) → EachSending k i w → EachSending (fetched k i out) i w
unfolding mbf_to_msg
same_Sending k i out [] s = tt
same_Sending k i out (t ∷ w) s = (rw (==-refl i) s.0, same_Sending k i out w s.1)

fetched_area :
    (k : Kernel) (i out : ℕ)
    → (((fetched k i out).obj.mbfcb i).buffer ≡ (k.obj.mbfcb i).buffer)
      × (((fetched k i out).obj.mbfcb i).bufsz ≡ (k.obj.mbfcb i).bufsz)
unfolding mbf_to_msg
fetched_area k i out = rw (==-refl i) (refl, refl)

Apart-at : (a n b s j : ℕ) → Apart a n b s → j < n → (a + j < b) ⊎ (b + s ≤ a + j)
Apart-at a n b s j (inl le) lj = inl (omega arith)
Apart-at a n b s j (inr le) lj = inr (omega arith)

-- A receiving call that has passed the checks, where the buffer holds the message `x` and behind
-- it those of `l`, the receiving area for `x` lies apart from the buffer, and the tasks that
-- wait to send are distinct and each message lies apart from the buffer and is not larger than
-- a word can say: the call returns the size of `x`, its bytes are in the receiving area, and the
-- room goes to the first tasks that wait to send, as `mbf_wakeup` hands it out behind `l`.
pub receive_first :
    (k : Kernel) (t i mbfid out : ℕ) (tmout : ℤ) (x : Message) (l : List Message)
    → IsMbf k.mem (k.obj.mbfcb i) (x ∷ l)
    → Apart out x.size (k.obj.mbfcb i).buffer (k.obj.mbfcb i).bufsz
    → Distinct (k.que (q_smbf i))
    → EachSending k i (k.que (q_smbf i))
    → ((receive_or_wait k t i mbfid out tmout).1 ≡ done x.size)
      × ((j : ℕ) → j < x.size → (receive_or_wait k t i mbfid out tmout).0.mem (out + j) ≡ x.byte j)
      × Woken (fetched k i out) (receive_or_wait k t i mbfid out tmout).0 i l (k.que (q_smbf i))
unfolding receive_or_wait fetch_msg
receive_first k t i mbfid out tmout x l c far d s =
    let took = mbf_to_msg_takes k.mem (k.obj.mbfcb i) x l out c far in
    let w : Woken (fetched k i out) (mbf_wakeup (fetched k i out) i) i l (k.que (q_smbf i)) =
      mbf_wakeup-Woken (fetched k i out) i l d (rw (==-refl i) took.3) (same_Sending k i out _ s) in
    rw (not_empty k.mem (k.obj.mbfcb i) x l c) (
      ap done took.0,
      (λ j lj.
          w.outside (out + j) (
            rw ((fetched_area k i out).0, (fetched_area k i out).1)
              (Apart-at out x.size _ _ j far lj))
          ∙ took.1 j lj),
      w,
    )

-- The state between the calls.
pub store-IsMbf :
    (k : Kernel) (i src n : ℕ) (l : List Message)
    → IsMbf k.mem (k.obj.mbfcb i) l
    → mbf_free (k.obj.mbfcb i) n ≡ true
    → n < 2 ^ 32
    → Apart src n (k.obj.mbfcb i).buffer (k.obj.mbfcb i).bufsz
    → IsMbf
        (store_msg k i src n).mem
        ((store_msg k i src n).obj.mbfcb i)
        (l ++ (message_at k.mem src n ∷ []))
unfolding store_msg
store-IsMbf k i src n l c free fits far =
    rw (==-refl i) (msg_to_mbf-IsMbf k.mem (k.obj.mbfcb i) l src n c free fits far)

store_area :
    (k : Kernel) (i src n : ℕ)
    → (((store_msg k i src n).obj.mbfcb i).buffer ≡ (k.obj.mbfcb i).buffer)
      × (((store_msg k i src n).obj.mbfcb i).bufsz ≡ (k.obj.mbfcb i).bufsz)
unfolding store_msg msg_to_mbf
store_area k i src n = rw (==-refl i) (refl, refl)

store_que : (k : Kernel) (i src n : ℕ) → (store_msg k i src n).que ≡ k.que
unfolding store_msg
store_que k i src n = refl

-- The state after a send that has passed the checks.
abbrev pub sent : Kernel → Option ℕ → ℕ → ℕ → ℕ → ℤ → Kernel
sent k run i src n tmout = (send_or_wait k run i src n tmout).0

sent_idle :
    (k : Kernel) (run : Option ℕ) (i src n : ℕ) (tmout : ℤ)
    → k.que (q_rmbf i) ≡ []
    → k.que (q_smbf i) ≡ []
    → mbf_free (k.obj.mbfcb i) n ≡ true
    → sent k run i src n tmout ≡ store_msg k i src n
sent_idle k run i src n tmout unheard idle free =
    ap (λ (r : Kernel × Er). r.0) (send_idle k run i src n tmout unheard idle free)

message_byte : (m : Mem) (src n j : ℕ) → j < n → (message_at m src n).byte j ≡ m (src + j)
message_byte m src n j lj = ground arith

-- On a buffer without a message, for which no task waits, where the message of `n` bytes has room,
-- `n` is not larger than a word can say, and the sending and the receiving area lie apart
-- from the buffer: the bytes that one call sends are those that the next call receives, with their
-- number, wherever the ring begins. Both calls are taken behind their checks.
pub receive-send :
    (k : Kernel) (run : Option ℕ) (t i mbfid src n out : ℕ) (tmout tmout' : ℤ)
    → IsMbf k.mem (k.obj.mbfcb i) []
    → k.que (q_rmbf i) ≡ []
    → k.que (q_smbf i) ≡ []
    → mbf_free (k.obj.mbfcb i) n ≡ true
    → n < 2 ^ 32
    → Apart src n (k.obj.mbfcb i).buffer (k.obj.mbfcb i).bufsz
    → Apart out n (k.obj.mbfcb i).buffer (k.obj.mbfcb i).bufsz
    → ((receive_or_wait (sent k run i src n tmout) t i mbfid out tmout').1 ≡ done n)
      × ((j : ℕ)
          → j < n
          → (receive_or_wait (sent k run i src n tmout) t i mbfid out tmout').0.mem (out + j)
            ≡ k.mem (src + j))
receive-send k run t i mbfid src n out tmout tmout' c unheard idle free fits far far' =
    let none_waits : (store_msg k i src n).que (q_smbf i) ≡ [] = rw (store_que k i src n) idle in
    let area = store_area k i src n in
    let r =
      receive_first (store_msg k i src n) t i mbfid out tmout' (message_at k.mem src n) []
        (store-IsMbf k i src n [] c free fits far) (rw (area.0, area.1) far') (rw none_waits tt)
        (rw none_waits tt) in
    rw (sent_idle k run i src n tmout unheard idle free)
      (r.0, λ j lj. r.1 j lj ∙ message_byte k.mem src n j lj)
