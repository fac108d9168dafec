-- ===== src/MsgQueue.antt =====
-- src/kernel/dwm/msg_queue.c: the queue of messages of a window. Each call holds the queue's lock.
pub mod Contents
mod Tests
use asym.Base.{
  ℕ, zero, suc, ◌+◌, ◌%◌, Bool, not, leb, List, [], ◌∷◌, length, Option, none, some, ◌==◌,
  if◌then◌else◌,
}
use asym.Base.Maps.{update}

-- MSG_QUEUE_MAX
abbrev pub msg_queue_max : ℕ
msg_queue_max = 8

-- MSG_MAX_DATA
abbrev pub msg_max_data : ℕ
msg_max_data = 64

-- `msg_t`; `data_at i` is byte `i` of its data, which counts below MSG_MAX_DATA.
pub record Msg : Type 0 where
  pub kind : ℕ
  pub time : ℕ
  pub data_at : ℕ → ℕ

pub record MsgQueue : Type 0 where
  pub queue : ℕ → Msg
  pub read_index : ℕ
  pub write_index : ℕ

unfoldable pub msg_queue_init : MsgQueue
msg_queue_init = record {
  queue = λ i. record { kind = 0; time = 0; data_at = λ j. 0 };
  read_index = 0;
  write_index = 0;
}

unfoldable pub msg_queue_avail : MsgQueue → Bool
msg_queue_avail q = not (q.read_index == q.write_index)

-- memcpy of the bytes to the front of the data: what stood behind them stays.
unfoldable pub overwritten : (ℕ → ℕ) → List ℕ → ℕ → ℕ
overwritten data_at [] i = data_at i
overwritten data_at (b ∷ bytes) zero = b
overwritten data_at (b ∷ bytes) (suc i) = overwritten (λ j. data_at (suc j)) bytes i

-- `now` is what `time_uptime` returns. The code copies as many bytes as it is given: `none` is a copy
-- that runs past the data of the slot, into the slots and indices behind it.
unfoldable pub msg_queue_push : MsgQueue → ℕ → List ℕ → ℕ → Option MsgQueue
msg_queue_push q kind bytes now =
    if leb (length bytes) msg_max_data
    then some (record q {
      queue = update q.queue q.write_index (record {
        kind = kind;
        time = now;
        data_at = overwritten (q.queue q.write_index).data_at bytes;
      });
      write_index = (q.write_index + 1) % msg_queue_max;
    })
    else none

-- One attempt: the message taken, or nothing where the call blocks and, after its timeout, returns
-- MSG_NONE.
unfoldable pub msg_queue_pop : MsgQueue → Option Msg × MsgQueue
msg_queue_pop q =
    if msg_queue_avail q
    then (some (q.queue q.read_index), record q { read_index = (q.read_index + 1) % msg_queue_max })
    else (none, q)
