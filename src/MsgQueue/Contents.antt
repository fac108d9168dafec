-- ===== src/MsgQueue/Contents.antt =====
-- src/kernel/dwm/msg_queue.c against the list of the messages that wait.
use asym.Base.{
  ◌≤◌, length, get_elem?, leb, true, ℕ, zero, suc, ◌+◌, ◌-◌, ◌%◌, ◌<◌, ◌≡◌, refl, sym, ap, ap₂, ◌∙◌,
  false, List, [], ◌∷◌, ◌++◌, some, arith, ◌==◌, if◌then◌else◌, Bool-cases, ==_iff, inl, inr,
}
use asym.Base.Maps.{update, update_self, update_ne}
unfoldable use asym.MsgQueue.{overwritten}
use asym.MsgQueue.{
  Msg, MsgQueue, msg_queue_max, msg_max_data, msg_queue_push, msg_queue_pop, msg_queue_avail,
}

pub record IsValid (q : MsgQueue) : Type 0 where
  pub read_in : q.read_index < msg_queue_max
  pub write_in : q.write_index < msg_queue_max

-- how many messages wait
abbrev pub waiting : MsgQueue → ℕ
waiting q = (q.write_index + msg_queue_max - q.read_index) % msg_queue_max

abbrev pub listed : ℕ → (ℕ → Msg) → List Msg
listed zero f = []
listed (suc n) f = f 0 ∷ listed n (λ k. f (suc k))

-- the messages that wait, the oldest first
abbrev pub messages : MsgQueue → List Msg
messages q = listed (waiting q) (λ k. q.queue ((q.read_index + k) % msg_queue_max))

listed-ext : (n : ℕ) (f g : ℕ → Msg) → ((k : ℕ) → k < n → f k ≡ g k) → listed n f ≡ listed n g
listed-ext zero f g h = refl
listed-ext (suc n) f g h =
    ap₂ ◌∷◌ (h 0 (omega arith)) (listed-ext n _ _ (λ k l. h (suc k) (omega arith)))

listed-last : (n : ℕ) (f : ℕ → Msg) → listed (suc n) f ≡ listed n f ++ f n ∷ []
listed-last zero f = refl
listed-last (suc n) f = ap (λ (l : List Msg). f 0 ∷ l) (listed-last n (λ k. f (suc k)))

overwritten-front :
    (bytes : List ℕ) (f : ℕ → ℕ) (i : ℕ)
    → i < length bytes
    → get_elem? bytes i ≡ some (overwritten f bytes i)
unfolding overwritten
overwritten-front (b ∷ bytes) f zero h = refl
overwritten-front (b ∷ bytes) f (suc i) h =
    overwritten-front bytes (λ j. f (suc j)) i (omega (arith, h))
overwritten-front [] f i h = elim h [ ]

overwritten-behind :
    (bytes : List ℕ) (f : ℕ → ℕ) (i : ℕ) → length bytes ≤ i → overwritten f bytes i ≡ f i
unfolding overwritten
overwritten-behind [] f i h = refl
overwritten-behind (b ∷ bytes) f (suc i) h =
    overwritten-behind bytes (λ j. f (suc j)) i (omega (arith, h))
overwritten-behind (b ∷ bytes) f zero h = absurd (omega (arith, h))

-- The message that a push makes of its arguments in a slot.
pub record Posted (kind : ℕ) (bytes : List ℕ) (now : ℕ) (slot msg : Msg) : Type 0 where
  pub kind_is : msg.kind ≡ kind
  pub time_is : msg.time ≡ now
  pub front : (i : ℕ) → i < length bytes → get_elem? bytes i ≡ some (msg.data_at i)
  pub behind : (i : ℕ) → length bytes ≤ i → msg.data_at i ≡ slot.data_at i

-- With at most MSG_MAX_DATA bytes, a push stays within its slot and returns. Where fewer than
-- MSG_QUEUE_MAX - 1 messages wait, it puts its message behind them: the type, the time and the bytes, and
-- behind these what the slot held before. Where that many wait, it loses them all and its own: the
-- queue is then empty.
pub messages-msg_queue_push :
    (q : MsgQueue) (kind : ℕ) (bytes : List ℕ) (now : ℕ)
    → IsValid q
    → length bytes ≤ msg_max_data
    → (q' : MsgQueue) × (msg : Msg) × (msg_queue_push q kind bytes now ≡ some q')
      × IsValid q'
      × Posted kind bytes now (q.queue q.write_index) msg
      × (messages q' ≡ (if waiting q == 7 then [] else messages q ++ msg ∷ []))
unfolding msg_queue_push
messages-msg_queue_push q kind bytes now v few = (q', msg, returns, valid, posted, pushed)
  where
    msg : Msg
    msg = record {
      kind = kind;
      time = now;
      data_at = overwritten (q.queue q.write_index).data_at bytes;
    }

    q' : MsgQueue
    q' = record q {
      queue = update q.queue q.write_index msg;
      write_index = (q.write_index + 1) % msg_queue_max;
    }

    returns : msg_queue_push q kind bytes now ≡ some q'
    returns = let fits : leb (length bytes) 64 ≡ true = ground (arith, few) in rw fits

    valid : IsValid q'
    valid = record { read_in = v.read_in; write_in = omega arith }

    posted : Posted kind bytes now (q.queue q.write_index) msg
    posted = record {
      kind_is = refl;
      time_is = refl;
      front = λ i h. overwritten-front bytes (q.queue q.write_index).data_at i h;
      behind = λ i h. overwritten-behind bytes (q.queue q.write_index).data_at i h;
    }

    place : ℕ → Msg
    place k = q'.queue ((q.read_index + k) % msg_queue_max)

    older :
        waiting q < 7
        → (k : ℕ) → k < waiting q
        → place k ≡ q.queue ((q.read_index + k) % msg_queue_max)
    older h k l = update_ne q.queue q.write_index msg _ (omega (arith, v.read_in, v.write_in))

    newest : place (waiting q) ≡ msg
    newest =
        let at : (q.read_index + waiting q) % msg_queue_max ≡ q.write_index =
          omega (arith, v.read_in, v.write_in) in
        ap q'.queue at ∙ update_self q.queue q.write_index msg

    pushed : messages q' ≡ (if waiting q == 7 then [] else messages q ++ msg ∷ [])
    pushed = elim (Bool-cases (waiting q == 7)) [
      | inl full ↦
          let seven : waiting q ≡ 7 = (==_iff (waiting q) 7).0 full in
          let none_left : waiting q' ≡ 0 = omega (arith, v.read_in, v.write_in) in
          rw full (ap (λ (n : ℕ). listed n place) none_left)
      | inr room ↦
          let fewer : waiting q < 7 = ground (arith, room) in
          let one_more : waiting q' ≡ suc (waiting q) = omega (arith, v.read_in, v.write_in) in
          rw room (
            ap (λ (n : ℕ). listed n place) one_more
            ∙ listed-last (waiting q) place
            ∙ ap₂ (λ (l : List Msg) (x : Msg). l ++ x ∷ [])
                (listed-ext (waiting q) _ _ (older fewer)) newest)
    ]

abbrev first_or : Msg → List Msg → Msg
first_or d [] = d
first_or d (m ∷ ms) = m

abbrev rest_of : List Msg → List Msg
rest_of [] = []
rest_of (m ∷ ms) = ms

-- A pop takes the oldest message, and leaves the others in their order.
pub messages-msg_queue_pop :
    (q : MsgQueue) (m : Msg) (ms : List Msg)
    → IsValid q
    → messages q ≡ m ∷ ms
    → (let (taken, q') = msg_queue_pop q in (taken ≡ some m) × IsValid q' × (messages q' ≡ ms))
unfolding msg_queue_pop msg_queue_avail
messages-msg_queue_pop q m ms v e = go (waiting q) refl e
  where
    place : ℕ → Msg
    place k = q.queue ((q.read_index + k) % msg_queue_max)

    left : MsgQueue
    left = record q { read_index = (q.read_index + 1) % msg_queue_max }

    taken :
        (n : ℕ)
        → waiting q ≡ suc n
        → place 0 ≡ m
        → listed n (λ k. place (suc k)) ≡ ms
        → (q.queue q.read_index ≡ m) × IsValid left × (messages left ≡ ms)
    taken n w first others =
        let at : (q.read_index + 0) % msg_queue_max ≡ q.read_index = omega (arith, v.read_in) in
        let fewer : waiting left ≡ n = omega (arith, v.read_in, v.write_in) in
        (
          sym (ap q.queue at) ∙ first,
          record { read_in = omega arith; write_in = v.write_in },
          ap (λ (k : ℕ). listed k (λ k. left.queue ((left.read_index + k) % msg_queue_max))) fewer
              ∙ listed-ext n _ _ (λ k l. ap q.queue (omega arith))
              ∙ others,
        )

    go :
        (n : ℕ)
        → waiting q ≡ n
        → listed n place ≡ m ∷ ms
        → (let (taken, q') = msg_queue_pop q in (taken ≡ some m) × IsValid q' × (messages q' ≡ ms))
    go zero w e = absurd (ground (arith, e))
    go (suc n) w e =
        let (first, valid, others) = taken n w (ap (first_or m) e) (ap rest_of e) in
        let some_wait : (q.read_index == q.write_index) ≡ false = ground (arith, w) in
        rw some_wait (ap some first, valid, others)
