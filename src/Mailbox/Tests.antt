-- ===== src/Mailbox/Tests.antt =====
-- The theorems on mailboxes at a concrete mailbox, with one message at 600.
use tkernel.Base.{◌≡◌, refl, [], ◌∷◌, ◌+◌, ◌^◌, arith, inl}
use tkernel.Str.{Mem}
use tkernel.Kernel.{Mbxcb}
use tkernel.MessageBuffer.Buffer.{load_word}
use tkernel.Mailbox.{append_msg, take_msg, queue_insert_mpri}
use tkernel.Mailbox.Chain.{IsQueue}
use tkernel.Mailbox.Fifo.{IsFifo, append_msg-IsFifo, take_msg-IsFifo}
use tkernel.Mailbox.Order.{IsOrdered, Ranked, queue_insert_mpri-Ranked}

abbrev zeros : Mem
zeros a = 0

abbrev one_message : Mbxcb
one_message = record { mbxid = 2 ^ 24 + 1; mbxatr = 0; mq_head = 600; mq_tail = 600 }

one_message-IsQueue : IsQueue zeros 600 (600 ∷ [])
unfolding IsQueue
one_message-IsQueue = (refl, omega arith, omega arith, refl)

one_message-IsFifo : IsFifo zeros one_message (600 ∷ [])
one_message-IsFifo = record { queue = one_message-IsQueue; spread = (tt, tt); tail = refl }

append_msg-IsFifo_example :
    IsFifo
      (append_msg zeros one_message 700).0
      (append_msg zeros one_message 700).1
      (600 ∷ 700 ∷ [])
append_msg-IsFifo_example =
    append_msg-IsFifo zeros one_message (600 ∷ []) 700 one_message-IsFifo (omega arith)
      (omega arith) (inl (omega arith), tt)

take_msg-IsFifo_example :
    (load_word (take_msg zeros one_message 800).0 800 ≡ 600)
    × IsFifo (take_msg zeros one_message 800).0 (take_msg zeros one_message 800).1 []
take_msg-IsFifo_example =
    take_msg-IsFifo zeros one_message 600 [] 800 one_message-IsFifo (inl (omega arith), tt)

one_message-IsOrdered : IsOrdered zeros one_message (600 ∷ [])
one_message-IsOrdered = record {
  queue = one_message-IsQueue;
  spread = (tt, tt);
  in_order = (tt, tt);
}

queue_insert_mpri-Ranked_example :
    Ranked zeros one_message 700 (600 ∷ []) (queue_insert_mpri 2 zeros one_message 700)
queue_insert_mpri-Ranked_example =
    queue_insert_mpri-Ranked 2 zeros one_message 700 (600 ∷ []) one_message-IsOrdered (omega arith)
      (omega arith) (omega arith) (inl (omega arith), tt)
