-- ===== src/MessageBuffer/Store.antt =====
-- kernel/tkernel/smp_src/messagebuf.c: what `msg_to_mbf` does to the queue of the messages.
use tkernel.Base.{
  ℕ, ◌+◌, ◌-◌, ◌%◌, ◌^◌, ◌≤◌, ◌<◌, ◌≡◌, ◌⊎◌, refl, sym, subst, true, List, [], ◌∷◌, ◌++◌, arith,
  leb→le,
}
use tkernel.Str.{Mem, store_word}
use tkernel.Kernel.{Mbfcb}
use tkernel.MessageBuffer.Buffer.{
  headersz, roundsz, mbf_free, next_pos, skip_bytes, copy_in, msg_to_mbf,
}
use tkernel.MessageBuffer.Ring.{
  wrap, Apart, skip_bytes-wrap, copy_in_ring, copy_in_outside, load_word-store_word,
  store_word_outside,
}
use tkernel.MessageBuffer.Messages.{
  message_at, Message, used, At, Holds, IsMbf, used_words, used-++, Holds-move, Holds-++,
}

-- A message of `n` bytes behind the `u` bytes in use.
module _ (m : Mem) (b s h u src n : ℕ) (hs : s % 4 ≡ 0) (hh : h % 4 ≡ 0) (hu : u % 4 ≡ 0)
    (lt : h < s) (le : u + (headersz + roundsz n) ≤ s) (far : Apart src n b s) where
  abbrev start : ℕ
  start = next_pos s (wrap s (h + u) + headersz)

  abbrev sent : Mem
  sent = copy_in (store_word m (b + wrap s (h + u)) n) b s start src n

  start_inside : start < s
  start_inside = ground arith

  start-wrap : (i : ℕ) → i < n → wrap s (start + i) ≡ wrap s (h + u + headersz + i)
  start-wrap i li = ground arith

  sent_byte : (i : ℕ) → i < n → sent (b + wrap s (h + u + headersz + i)) ≡ m (src + i)
  sent_byte i li = ground (
    arith,
    start_inside,
    start-wrap i li,
    copy_in_ring (store_word m (b + wrap s (h + u)) n) b s start src n i,
    store_word_outside m (b + wrap s (h + u)) n (src + i),
  )

  before : (i j : ℕ) → i < u → j ≡ i + s - (u + headersz) → wrap s (start + j) ≡ wrap s (h + i)
  before i j li e = ground arith

  sent_before : (i : ℕ) → i < u → sent (b + wrap s (h + i)) ≡ m (b + wrap s (h + i))
  sent_before i li = ground (
    arith,
    start_inside,
    before i (i + s - (u + headersz)) li refl,
    copy_in_ring (store_word m (b + wrap s (h + u)) n) b s start src n (i + s - (u + headersz)),
    store_word_outside m (b + wrap s (h + u)) n (b + wrap s (h + i)),
  )

  word_behind : (k : ℕ) → k < 4 → wrap s (start + (s - 4 + k)) ≡ wrap s (h + u) + k
  word_behind k lk = ground arith

  sent_word :
      (k : ℕ)
      → k < 4
      → sent (b + wrap s (h + u) + k) ≡ store_word m (b + wrap s (h + u)) n (b + wrap s (h + u) + k)
  sent_word k lk = ground (
    arith,
    start_inside,
    word_behind k lk,
    copy_in_ring (store_word m (b + wrap s (h + u)) n) b s start src n (s - 4 + k),
  )

  sent_outside : (a : ℕ) → (a < b) ⊎ (b + s ≤ a) → sent a ≡ m a
  sent_outside a out = ground (
    arith,
    start_inside,
    copy_in_outside (store_word m (b + wrap s (h + u)) n) b s start src n a,
    store_word_outside m (b + wrap s (h + u)) n a,
  )

  sent_At : n < 2 ^ 32 → At sent b s (h + u) (message_at m src n)
  unfolding At
  sent_At fits = (
    ground (
      arith,
      sent_word 0 (omega arith),
      sent_word 1 (omega arith),
      sent_word 2 (omega arith),
      sent_word 3 (omega arith),
      load_word-store_word m (b + wrap s (h + u)) n fits,
    ),
    λ i li. ground (arith, sent_byte i li),
  )

  sent_tail : skip_bytes s start n ≡ wrap s (h + (u + (headersz + roundsz n)))
  sent_tail = ground (arith, start_inside, skip_bytes-wrap s start n)

pub fits_rounded :
    (m : Mem) (cb : Mbfcb) (l : List Message) (n : ℕ)
    → IsMbf m cb l
    → mbf_free cb n ≡ true
    → used l + (headersz + roundsz n) ≤ cb.bufsz
fits_rounded m cb l n c free = ground (arith, c.room, c.bufsz_words, used_words l, leb→le _ _ free)

-- `msg_to_mbf` appends.
pub msg_to_mbf-IsMbf :
    (m : Mem) (cb : Mbfcb) (l : List Message) (src n : ℕ)
    → IsMbf m cb l
    → mbf_free cb n ≡ true
    → n < 2 ^ 32
    → Apart src n cb.buffer cb.bufsz
    → IsMbf (msg_to_mbf m cb src n).0 (msg_to_mbf m cb src n).1 (l ++ (message_at m src n ∷ []))
unfolding msg_to_mbf
msg_to_mbf-IsMbf m cb l src n c free fits far =
    let le = fits_rounded m cb l n c free in
    let u = used_words l in
    let b = cb.buffer in
    let s = cb.bufsz in
    let h = cb.head in
    record {
      bufsz_words = c.bufsz_words;
      head_words = c.head_words;
      head_inside = c.head_inside;
      room = ground (arith, used-++ l (message_at m src n), c.room);
      tail_behind =
          rw (c.tail_behind, used-++ l (message_at m src n))
            (sent_tail m b s h (used l) src n c.bufsz_words c.head_words u c.head_inside le far);
      holds =
          subst
            (λ t.
              Holds (copy_in (store_word m (b + t) n) b s (next_pos s (t + headersz)) src n) b s h
                (l ++ (message_at m src n ∷ [])))
            (sym c.tail_behind)
            (Holds-++ _ b s l (message_at m src n) h
              (Holds-move m _ b s l h h c.bufsz_words c.head_words c.head_words
                (sent_before m b s h (used l) src n c.bufsz_words c.head_words u c.head_inside le
                  far)
                c.holds)
              (sent_At m b s h (used l) src n c.bufsz_words c.head_words u c.head_inside le far
                fits));
    }

-- It writes nothing outside the buffer.
pub msg_to_mbf_outside :
    (m : Mem) (cb : Mbfcb) (l : List Message) (src n a : ℕ)
    → IsMbf m cb l
    → mbf_free cb n ≡ true
    → Apart src n cb.buffer cb.bufsz
    → (a < cb.buffer) ⊎ (cb.buffer + cb.bufsz ≤ a)
    → (msg_to_mbf m cb src n).0 a ≡ m a
unfolding msg_to_mbf
msg_to_mbf_outside m cb l src n a c free far out = rw c.tail_behind (
    sent_outside m cb.buffer cb.bufsz cb.head (used l) src n c.bufsz_words c.head_words
      (used_words l) c.head_inside (fits_rounded m cb l n c free) far a out)

-- On a buffer that holds the messages `l`, for a message of `n` bytes that has room in it, is not
-- larger than a word can say, and lies apart from the buffer: after `msg_to_mbf` the buffer
-- holds `l` and behind it this message, wherever it has to go over the end of the ring, and no
-- byte outside the buffer has changed.
pub msg_to_mbf_appends :
    (m : Mem) (cb : Mbfcb) (l : List Message) (src n : ℕ)
    → IsMbf m cb l
    → mbf_free cb n ≡ true
    → n < 2 ^ 32
    → Apart src n cb.buffer cb.bufsz
    → IsMbf (msg_to_mbf m cb src n).0 (msg_to_mbf m cb src n).1 (l ++ (message_at m src n ∷ []))
      × ((a : ℕ) → (a < cb.buffer) ⊎ (cb.buffer + cb.bufsz ≤ a) → (msg_to_mbf m cb src n).0 a ≡ m a)
msg_to_mbf_appends m cb l src n c free fits far = (
  msg_to_mbf-IsMbf m cb l src n c free fits far,
  λ a out. msg_to_mbf_outside m cb l src n a c free far out,
)
