-- ===== src/MessageBuffer/Buffer.antt =====
-- kernel/tkernel/smp_src/messagebuf.c: the buffer, an area of `mem` that is used as a ring. Each message
-- stands in it as its size, a word, and its bytes, filled up to whole words.
use tkernel.Base.{ℕ, ◌+◌, ◌-◌, ◌*◌, ◌/◌, Bool, if◌then◌else◌, ◌==◌, ltb, leb}
use tkernel.Kernel.{Mbfcb}
use tkernel.Str.{Mem, memcpy, store_word}

-- HEADERSZ and ROUNDSZ.
abbrev pub headersz : ℕ
headersz = 4

abbrev pub roundsz : ℕ → ℕ
roundsz sz = (sz + 3) / 4 * 4

-- `mbf_free` and `mbf_empty`.
abbrev pub mbf_free : Mbfcb → ℕ → Bool
mbf_free cb msgsz = leb (headersz + msgsz) cb.frbufsz

abbrev pub mbf_empty : Mbfcb → Bool
mbf_empty cb = cb.frbufsz == cb.bufsz

-- `*(HEADER*)&buffer[head]`.
abbrev pub load_word : Mem → ℕ → ℕ
load_word m a = m a + m (a + 1) * 256 + m (a + 2) * 65536 + m (a + 3) * 16777216

-- `if ( tail >= mbfcb->bufsz ) tail = 0;`
abbrev pub next_pos : ℕ → ℕ → ℕ
next_pos bufsz p = if leb bufsz p then 0 else p

-- The position behind the bytes of a message that begin at `p`, where the part in front of the end
-- of the buffer may be too short for them.
unfoldable pub skip_bytes : ℕ → ℕ → ℕ → ℕ
skip_bytes bufsz p msgsz =
    if ltb (bufsz - p) msgsz
    then next_pos bufsz (roundsz (msgsz - (bufsz - p)))
    else next_pos bufsz (p + roundsz msgsz)

-- The one or two calls of `memcpy` of `msg_to_mbf`, and those of `mbf_to_msg`.
unfoldable pub copy_in : Mem → ℕ → ℕ → ℕ → ℕ → ℕ → Mem
copy_in m buffer bufsz tail msg msgsz =
    let remsz = bufsz - tail in
    if ltb remsz msgsz
    then memcpy (memcpy m (buffer + tail) msg remsz) buffer (msg + remsz) (msgsz - remsz)
    else memcpy m (buffer + tail) msg msgsz

unfoldable pub copy_out : Mem → ℕ → ℕ → ℕ → ℕ → ℕ → Mem
copy_out m buffer bufsz head msg msgsz =
    let remsz = bufsz - head in
    if ltb remsz msgsz
    then memcpy (memcpy m msg (buffer + head) remsz) (msg + remsz) buffer (msgsz - remsz)
    else memcpy m msg (buffer + head) msgsz

-- `msg_to_mbf`.
unfoldable pub msg_to_mbf : Mem → Mbfcb → ℕ → ℕ → Mem × Mbfcb
msg_to_mbf m cb msg msgsz =
    let tail = next_pos cb.bufsz (cb.tail + headersz) in
    let m1 = store_word m (cb.buffer + cb.tail) msgsz in
    (
      copy_in m1 cb.buffer cb.bufsz tail msg msgsz,
      record cb {
        frbufsz = cb.frbufsz - (headersz + roundsz msgsz);
        tail = skip_bytes cb.bufsz tail msgsz;
      },
    )

-- `mbf_to_msg`, with the size that it returns.
unfoldable pub mbf_to_msg : Mem → Mbfcb → ℕ → Mem × Mbfcb × ℕ
mbf_to_msg m cb msg =
    let msgsz = load_word m (cb.buffer + cb.head) in
    let head = next_pos cb.bufsz (cb.head + headersz) in
    (
      copy_out m cb.buffer cb.bufsz head msg msgsz,
      record cb {
        frbufsz = cb.frbufsz + (headersz + roundsz msgsz);
        head = skip_bytes cb.bufsz head msgsz;
      },
      msgsz,
    )
