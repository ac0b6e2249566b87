-- ===== src/MessageBuffer/Tests.antt =====
-- The theorems on message buffers at a concrete kernel.
use tkernel.Base.{
  ℕ, ◌+◌, ◌%◌, ◌<◌, ◌≤◌, ◌≡◌, ◌⊎◌, inr, refl, arith, [], ◌∷◌, if◌then◌else◌, pos, negsuc, some,
}
use tkernel.Str.{Mem}
use tkernel.Kernel.{Kernel, Mbfcb, done, q_smbf}
use tkernel.Kernel.Queue.{que_eq}
use tkernel.Sample.{sample, sample_semid}
use tkernel.MessageBuffer.{receive_or_wait, store_msg}
use tkernel.MessageBuffer.Buffer.{msg_to_mbf, mbf_to_msg}
use tkernel.MessageBuffer.Messages.{IsMbf, message_at, Holds, used}
use tkernel.MessageBuffer.Store.{msg_to_mbf-IsMbf, msg_to_mbf_appends}
use tkernel.MessageBuffer.Fetch.{mbf_to_msg_takes}
use tkernel.MessageBuffer.Pending.{Woken}
use tkernel.MessageBuffer.Calls.{fetched, receive_first, store-IsMbf, sent, receive-send}

-- A kernel with bytes in its memory, an empty message buffer with its ring begun at 24 of 32, and
-- nobody waiting; and one in which the tasks 3 and 4 wait to send.
abbrev quiet : Kernel
quiet = record sample { mem = λ a. a % 251 }

abbrev busy : Kernel
busy = record quiet { que = λ q. if que_eq (q_smbf 0) q then 3 ∷ 4 ∷ [] else sample.que q }

abbrev buffer_0 : Mbfcb
buffer_0 = sample.obj.mbfcb 0

quiet-IsMbf : IsMbf quiet.mem buffer_0 []
unfolding Holds used
quiet-IsMbf = record {
  bufsz_words = refl;
  head_words = refl;
  head_inside = omega arith;
  room = refl;
  tail_behind = refl;
  holds = tt;
}

msg_to_mbf_appends_example :
    IsMbf
      (msg_to_mbf quiet.mem buffer_0 2000 6).0
      (msg_to_mbf quiet.mem buffer_0 2000 6).1
      (message_at quiet.mem 2000 6 ∷ [])
    × ((a : ℕ) → (a < 1000) ⊎ (1032 ≤ a) → (msg_to_mbf quiet.mem buffer_0 2000 6).0 a ≡ a % 251)
msg_to_mbf_appends_example =
    msg_to_mbf_appends quiet.mem buffer_0 [] 2000 6 quiet-IsMbf refl (omega arith)
      (inr (omega arith))

abbrev mem_1 : Mem
mem_1 = (msg_to_mbf quiet.mem buffer_0 2000 6).0

abbrev buffer_1 : Mbfcb
buffer_1 = (msg_to_mbf quiet.mem buffer_0 2000 6).1

held-IsMbf : IsMbf mem_1 buffer_1 (message_at quiet.mem 2000 6 ∷ [])
held-IsMbf =
    msg_to_mbf-IsMbf quiet.mem buffer_0 [] 2000 6 quiet-IsMbf refl (omega arith) (inr (omega arith))

mbf_to_msg_takes_example :
    ((mbf_to_msg mem_1 buffer_1 3000).2 ≡ 6)
    × ((i : ℕ)
        → i < 6
        → (mbf_to_msg mem_1 buffer_1 3000).0 (3000 + i) ≡ (message_at quiet.mem 2000 6).byte i)
    × ((a : ℕ) → (a < 3000) ⊎ (3006 ≤ a) → (mbf_to_msg mem_1 buffer_1 3000).0 a ≡ mem_1 a)
    × IsMbf (mbf_to_msg mem_1 buffer_1 3000).0 (mbf_to_msg mem_1 buffer_1 3000).1 []
unfolding msg_to_mbf
mbf_to_msg_takes_example =
    mbf_to_msg_takes mem_1 buffer_1 (message_at quiet.mem 2000 6) [] 3000 held-IsMbf
      (inr (omega arith))

abbrev filled : Kernel
filled = store_msg busy 0 2000 6

receive_first_example :
    ((receive_or_wait filled 7 0 sample_semid 3000 (negsuc 0)).1 ≡ done 6)
    × ((j : ℕ)
        → j < 6
        → (receive_or_wait filled 7 0 sample_semid 3000 (negsuc 0)).0.mem (3000 + j)
          ≡ (message_at quiet.mem 2000 6).byte j)
    × Woken
        (fetched filled 0 3000)
        (receive_or_wait filled 7 0 sample_semid 3000 (negsuc 0)).0
        0
        []
        (3 ∷ 4 ∷ [])
unfolding store_msg msg_to_mbf
receive_first_example =
    receive_first filled 7 0 sample_semid 3000 (negsuc 0) (message_at quiet.mem 2000 6) []
      (store-IsMbf busy 0 2000 6 [] quiet-IsMbf refl (omega arith) (inr (omega arith)))
      (inr (omega arith)) ((λ e. omega arith, tt), (tt, tt))
      ((omega arith, inr (omega arith)), ((omega arith, inr (omega arith)), tt))

receive-send_example :
    ((receive_or_wait (sent quiet (some 7) 0 2000 6 (negsuc 0)) 3 0 sample_semid 3000 (pos 5)).1
      ≡ done 6)
    × ((j : ℕ)
        → j < 6
        → (receive_or_wait
              (sent quiet (some 7) 0 2000 6 (negsuc 0))
              3
              0
              sample_semid
              3000
              (pos 5)).0.mem
            (3000 + j)
          ≡ (2000 + j) % 251)
receive-send_example =
    receive-send quiet (some 7) 3 0 sample_semid 2000 6 3000 (negsuc 0) (pos 5) quiet-IsMbf refl
      refl refl (omega arith) (inr (omega arith)) (inr (omega arith))
