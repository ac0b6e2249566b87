-- ===== src/MessageBuffer/Fetch.antt =====
-- kernel/tkernel/smp_src/messagebuf.c: what `mbf_to_msg` does to the queue of the messages.
use tkernel.Base.{ℕ, ◌+◌, ◌%◌, ◌≤◌, ◌<◌, ◌≡◌, ◌⊎◌, refl, ap, ◌∙◌, List, ◌∷◌, arith}
use tkernel.Str.{Mem}
use tkernel.Kernel.{Mbfcb}
use tkernel.MessageBuffer.Buffer.{
  headersz, roundsz, load_word, next_pos, skip_bytes, copy_out, mbf_to_msg,
}
use tkernel.MessageBuffer.Ring.{wrap, Apart, skip_bytes-wrap, copy_out_at, copy_out_outside}
use tkernel.MessageBuffer.Messages.{Message, used, At, Holds, IsMbf, Holds-move}

-- The first message, of `n` bytes.
module _ (m : Mem) (b s h out n : ℕ) (hs : s % 4 ≡ 0) (hh : h % 4 ≡ 0) (lt : h < s)
    (le : headersz + roundsz n ≤ s) (far : Apart out n b s) where
  abbrev fetched : Mem
  fetched = copy_out m b s (next_pos s (h + headersz)) out n

  fetched_byte : (i : ℕ) → i < n → fetched (out + i) ≡ m (b + wrap s (h + headersz + i))
  fetched_byte i li = ground (arith, copy_out_at m b s (next_pos s (h + headersz)) out n i)

  fetched_outside : (a : ℕ) → (a < out) ⊎ (out + n ≤ a) → fetched a ≡ m a
  fetched_outside a apart =
      ground (arith, copy_out_outside m b s (next_pos s (h + headersz)) out n a)

  fetched_head : skip_bytes s (next_pos s (h + headersz)) n ≡ wrap s (h + (headersz + roundsz n))
  fetched_head = ground (arith, skip_bytes-wrap s (next_pos s (h + headersz)) n)

  fetched_ring : (p : ℕ) → p < s + s → fetched (b + wrap s p) ≡ m (b + wrap s p)
  fetched_ring p lp = fetched_outside (b + wrap s p) (ground arith)

  fetched_rest :
      (u p : ℕ)
      → p ≡ wrap s (h + (headersz + roundsz n))
      → headersz + roundsz n + u ≤ s
      → (i : ℕ) → i < u
      → fetched (b + wrap s (p + i)) ≡ m (b + wrap s (h + (headersz + roundsz n) + i))
  fetched_rest u p e room i li = ground (arith, fetched_ring (p + i))

-- `mbf_to_msg` takes the first message.
first_inside :
    (m : Mem) (cb : Mbfcb) (x : Message) (l : List Message)
    → IsMbf m cb (x ∷ l)
    → headersz + roundsz x.size + used l + cb.frbufsz ≡ cb.bufsz
unfolding used
first_inside m cb x l c = c.room

first_word :
    (m : Mem) (cb : Mbfcb) (x : Message) (l : List Message)
    → IsMbf m cb (x ∷ l)
    → load_word m (cb.buffer + cb.head) ≡ x.size
unfolding Holds At
first_word m cb x l c =
    ap (λ q. load_word m (cb.buffer + q)) (ground (arith, c.head_inside)) ∙ c.holds.0.0

pub mbf_to_msg_size :
    (m : Mem) (cb : Mbfcb) (x : Message) (l : List Message) (out : ℕ)
    → IsMbf m cb (x ∷ l)
    → (mbf_to_msg m cb out).2 ≡ x.size
unfolding mbf_to_msg
mbf_to_msg_size m cb x l out c = first_word m cb x l c

pub mbf_to_msg_byte :
    (m : Mem) (cb : Mbfcb) (x : Message) (l : List Message) (out i : ℕ)
    → IsMbf m cb (x ∷ l)
    → Apart out x.size cb.buffer cb.bufsz
    → i < x.size
    → (mbf_to_msg m cb out).0 (out + i) ≡ x.byte i
unfolding mbf_to_msg Holds At
mbf_to_msg_byte m cb x l out i c far li = rw (first_word m cb x l c) (
    fetched_byte m cb.buffer cb.bufsz cb.head out x.size c.bufsz_words c.head_words c.head_inside
      (omega (arith, first_inside m cb x l c)) far i li
    ∙ c.holds.0.1 i li)

wrap_twice : (s h d u : ℕ) → h < s → d + u ≤ s → wrap s (h + (d + u)) ≡ wrap s (wrap s (h + d) + u)
wrap_twice s h d u lt le = ground arith

pub mbf_to_msg-IsMbf :
    (m : Mem) (cb : Mbfcb) (x : Message) (l : List Message) (out : ℕ)
    → IsMbf m cb (x ∷ l)
    → Apart out x.size cb.buffer cb.bufsz
    → IsMbf (mbf_to_msg m cb out).0 (mbf_to_msg m cb out).1 l
unfolding mbf_to_msg Holds used
mbf_to_msg-IsMbf m cb x l out c far =
    let b = cb.buffer in
    let s = cb.bufsz in
    let h = cb.head in
    let room = first_inside m cb x l c in
    let le : headersz + roundsz x.size ≤ s = omega arith in
    let after = fetched_head m b s h out x.size c.bufsz_words c.head_words c.head_inside le far in
    rw (first_word m cb x l c, after)
      (record {
        bufsz_words = c.bufsz_words;
        head_words = ground arith;
        head_inside = ground arith;
        room = omega arith;
        tail_behind =
            c.tail_behind
            ∙ wrap_twice s h (headersz + roundsz x.size) (used l) c.head_inside (omega arith);
        holds =
            Holds-move m _ b s l (h + (headersz + roundsz x.size))
              (wrap s (h + (headersz + roundsz x.size))) c.bufsz_words (omega arith) (ground arith)
              (fetched_rest m b s h out x.size c.bufsz_words c.head_words c.head_inside le far
                (used l) _ refl (omega arith))
              c.holds.1;
      })

pub mbf_to_msg_outside :
    (m : Mem) (cb : Mbfcb) (x : Message) (l : List Message) (out a : ℕ)
    → IsMbf m cb (x ∷ l)
    → Apart out x.size cb.buffer cb.bufsz
    → (a < out) ⊎ (out + x.size ≤ a)
    → (mbf_to_msg m cb out).0 a ≡ m a
unfolding mbf_to_msg
mbf_to_msg_outside m cb x l out a c far apart = rw (first_word m cb x l c) (
    fetched_outside m cb.buffer cb.bufsz cb.head out x.size c.bufsz_words c.head_words c.head_inside
      (omega (arith, first_inside m cb x l c)) far a apart)

-- On a buffer whose first message is `x`, where the receiving area for it lies apart from the
-- buffer: `mbf_to_msg` returns the size of `x`, leaves its bytes in that area and no other byte
-- changed, and the buffer then holds the messages behind `x`.
pub mbf_to_msg_takes :
    (m : Mem) (cb : Mbfcb) (x : Message) (l : List Message) (out : ℕ)
    → IsMbf m cb (x ∷ l)
    → Apart out x.size cb.buffer cb.bufsz
    → ((mbf_to_msg m cb out).2 ≡ x.size)
      × ((i : ℕ) → i < x.size → (mbf_to_msg m cb out).0 (out + i) ≡ x.byte i)
      × ((a : ℕ) → (a < out) ⊎ (out + x.size ≤ a) → (mbf_to_msg m cb out).0 a ≡ m a)
      × IsMbf (mbf_to_msg m cb out).0 (mbf_to_msg m cb out).1 l
mbf_to_msg_takes m cb x l out c far = (
  mbf_to_msg_size m cb x l out c,
  (λ i li. mbf_to_msg_byte m cb x l out i c far li),
  (λ a apart. mbf_to_msg_outside m cb x l out a c far apart),
  mbf_to_msg-IsMbf m cb x l out c far,
)
