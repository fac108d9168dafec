-- ===== src/MsgQueue/Tests.antt =====
-- The theorems on src/kernel/dwm/msg_queue.c at a queue that goes round.
use asym.Base.{◌≡◌, ◌+◌, refl, [], ◌∷◌, ◌++◌, some, arith, ◌==◌, if◌then◌else◌}
use asym.MsgQueue.{Msg, MsgQueue, msg_queue_push, msg_queue_pop}
use asym.MsgQueue.Contents.{
  IsValid, Posted, waiting, messages, messages-msg_queue_push, messages-msg_queue_pop,
}

-- messages at the places 6, 7 and 0
abbrev three : MsgQueue
three = record {
  queue = λ i. record { kind = i; time = 100 + i; data_at = λ j. 0 };
  read_index = 6;
  write_index = 1;
}

three-IsValid : IsValid three
three-IsValid = omega arith

messages-msg_queue_push_example :
    (q : MsgQueue) × (msg : Msg) × (msg_queue_push three 5 (1 ∷ 2 ∷ []) 200 ≡ some q)
    × IsValid q
    × Posted 5 (1 ∷ 2 ∷ []) 200 (three.queue 1) msg
    × (messages q ≡ (if waiting three == 7 then [] else messages three ++ msg ∷ []))
messages-msg_queue_push_example =
    messages-msg_queue_push three 5 (1 ∷ 2 ∷ []) 200 three-IsValid (omega arith)

messages-msg_queue_pop_example :
    let (taken, q) = msg_queue_pop three in
    (taken ≡ some (three.queue 6)) × IsValid q × (messages q ≡ three.queue 7 ∷ three.queue 0 ∷ [])
messages-msg_queue_pop_example =
    messages-msg_queue_pop three (three.queue 6) (three.queue 7 ∷ three.queue 0 ∷ []) three-IsValid
      refl
