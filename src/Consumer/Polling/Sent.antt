-- ===== src/Consumer/Polling/Sent.antt =====
-- Which messages `pollMessages` of pkg/queue/consumer.go puts into the channel.
use yuclase.Base.{
  ℕ, zero, suc, ◌+◌, ◌-◌, ◌≡◌, refl, sym, ap, ◌∙◌, Bool, true, false, List, [], ◌∷◌, ◌++◌, length,
  length-append, take, ltb, if◌then◌else◌, arith, append-nil, append_assoc, Bool-cases, inl, inr,
}
use mathlib.Core.Path.{subst}
use yuclase.Base.Int64.{ℤ, pos, leb_ℤ, ◌<ℤ◌}
use yuclase.Base.Bytes.{codes}
use yuclase.Base.Exec.{Result, ok, panic, bind_result, wrap_result}
use yuclase.Storage.Log.Writer.{LogEntry}
use yuclase.Storage.Log.Messages.Sequence.{Message, entries_at}
use yuclase.Queue.Topics.{dequeue_with_limit}
use yuclase.Consumer.State.{Consumer, Client}
use yuclase.Consumer.Polling.{poll_loop, poll_messages, with_message, message_capacity, process}

-- Every entry stands behind `current`.
abbrev pub Behind : ℤ → List LogEntry → Type 0
Behind current [] = Unit
Behind current (m ∷ ms) = (current <ℤ m.offset) × Behind current ms

entries_at-Behind :
    (current : ℤ) (o : ℕ) (ms : List Message) → current <ℤ pos o → Behind current (entries_at o ms)
unfolding entries_at
entries_at-Behind current o [] h = tt
entries_at-Behind current o (m ∷ ms) h =
    (h, entries_at-Behind current (o + (12 + length m.payload)) ms (omega (arith, h)))

-- The room in the channel.
abbrev pub room : Consumer → ℕ
room c = message_capacity - length c.messages

abbrev none_of : List LogEntry
none_of = []

take-nil : (n : ℕ) → take n none_of ≡ none_of
take-nil zero = refl
take-nil (suc n) = refl

-- The loop returns, and `es` are in the channel behind what it held.
pub record Sends (es : List LogEntry) (c : Consumer) (r : Result (Unit {0}) × Consumer)
    : Type 0 where
  pub returned : r.0 ≡ ok tt
  pub sent : r.1.messages ≡ c.messages ++ es

module _ (now current : ℤ) (m : LogEntry) (ms : List LogEntry) (c : Consumer) where
  -- What the loop does with a live consumer and an entry behind `current`.
  abbrev pub on_room : Bool → Result (Unit {0}) × Consumer
  on_room b = if b then poll_loop now current ms (with_message now m c) else (ok tt, c)

  abbrev pub on_stop : Bool → Result (Unit {0}) × Consumer
  on_stop b = if b then (panic, c) else on_room (ltb (length c.messages) message_capacity)

  abbrev pub on_old : Bool → Result (Unit {0}) × Consumer
  on_old b = if b then poll_loop now current ms c else on_stop c.stopped

  poll_new :
      current <ℤ m.offset
      → c.stopped ≡ false
      → poll_loop now current (m ∷ ms) c ≡ on_room (ltb (length c.messages) message_capacity)
  unfolding poll_loop
  poll_new behind live =
      let new : leb_ℤ m.offset current ≡ false = ground arith in ap on_old new ∙ ap on_stop live

  poll_old :
      leb_ℤ m.offset current ≡ true → poll_loop now current (m ∷ ms) c ≡ poll_loop now current ms c
  unfolding poll_loop
  poll_old old = ap on_old old

module _ (now current : ℤ) where
  poll_loop-Sends :
      (es : List LogEntry) (c : Consumer)
      → Behind current es
      → c.stopped ≡ false
      → Sends (take (room c) es) c (poll_loop now current es c)
  unfolding poll_loop
  poll_loop-Sends [] c h live =
      subst (λ es. Sends es c (ok tt, c)) (sym (take-nil (room c)))
        (record { returned = refl; sent = sym (append-nil c.messages) })
  poll_loop-Sends (m ∷ ms) c h live = elim (Bool-cases (ltb (length c.messages) message_capacity)) [
    | inl more ↦
        let c' = with_message now m c in
        let later = poll_loop-Sends ms c' h.1 live in
        let rest : room c ≡ suc (room c') = ground (arith, length-append c.messages (m ∷ [])) in
        subst (λ n. Sends (take n (m ∷ ms)) c (poll_loop now current (m ∷ ms) c)) (sym rest)
          (subst (Sends (m ∷ take (room c') ms) c)
            (sym (poll_new now current m ms c h.0 live ∙ ap (on_room now current m ms c) more))
            (record {
              returned = later.returned;
              sent = later.sent ∙ append_assoc c.messages (m ∷ []) (take (room c') ms);
            }))
    | inr full ↦
        let none_left : room c ≡ 0 = ground arith in
        subst (λ n. Sends (take n (m ∷ ms)) c (poll_loop now current (m ∷ ms) c)) (sym none_left)
          (subst (Sends [] c)
            (sym (poll_new now current m ms c h.0 live ∙ ap (on_room now current m ms c) full))
            (record { returned = refl; sent = sym (append-nil c.messages) }))
  ]

leb_refl : (o : ℕ) → leb_ℤ (pos o) (pos o) ≡ true
leb_refl o = ground arith

-- The outcome of a poll: `es` are sent, and the queue is what `DequeueWithLimit` left.
pub record Polls (es : List LogEntry) (s : Client) (r : Result (Unit {0}) × Client) : Type 0 where
  pub returned : r.0 ≡ ok tt
  pub sent : r.1.self.messages ≡ s.self.messages ++ es
  pub queue : r.1.host ≡ (dequeue_with_limit s.self.topic_name s.self.id (pos 10) s.host).1

module _ (s : Client) where
  -- A poll is the loop over what was dequeued.
  poll_messages-Polls :
      (es sent : List LogEntry)
      → (dequeue_with_limit s.self.topic_name s.self.id (pos 10) s.host).0 ≡ ok es
      → Sends sent s.self (poll_loop s.now s.self.offset es s.self)
      → Polls sent s (poll_messages s)
  unfolding poll_messages
  poll_messages-Polls es sent read' h =
      let (r, q) = dequeue_with_limit s.self.topic_name s.self.id (pos 10) s.host in
      let after = record s { host = q } in
      subst
        (λ x.
          Polls sent s
            (bind_result (wrap_result (codes "failed to dequeue messages") x) process after))
        (sym read') (record { returned = h.returned; sent = h.sent; queue = refl })

  -- When the consumer stands before the offset `o` of the first message that is dequeued and has not
  -- been stopped, a poll puts the messages into the channel in order, as many as there is room for.
  -- The rest is lost to it, since the queue has moved on behind all of them.
  pub poll-Polls :
      (o : ℕ) (ms : List Message)
      → (dequeue_with_limit s.self.topic_name s.self.id (pos 10) s.host).0 ≡ ok (entries_at o ms)
      → s.self.offset <ℤ pos o
      → s.self.stopped ≡ false
      → Polls (take (room s.self) (entries_at o ms)) s (poll_messages s)
  poll-Polls o ms read' before live =
      poll_messages-Polls (entries_at o ms) (take (room s.self) (entries_at o ms)) read' (
        poll_loop-Sends s.now s.self.offset (entries_at o ms) s.self
          (entries_at-Behind s.self.offset o ms before) live)

  -- When the consumer stands at the offset `o` of the first message that is dequeued, as it does when
  -- it is new, a poll leaves that message out and sends those behind it; the queue has moved on
  -- behind it all the same.
  pub skipping-Polls :
      (o : ℕ) (m : Message) (ms : List Message)
      → (dequeue_with_limit s.self.topic_name s.self.id (pos 10) s.host).0
        ≡ ok (entries_at o (m ∷ ms))
      → s.self.offset ≡ pos o
      → s.self.stopped ≡ false
      → Polls (take (room s.self) (entries_at (o + (12 + length m.payload)) ms)) s (poll_messages s)
  unfolding entries_at
  skipping-Polls o m ms read' at live =
      let e : LogEntry = record { timestamp = m.timestamp; payload = m.payload; offset = pos o } in
      let rest = entries_at (o + (12 + length m.payload)) ms in
      let old : leb_ℤ (pos o) s.self.offset ≡ true =
        subst (λ z. leb_ℤ (pos o) z ≡ true) (sym at) (leb_refl o) in
      let next : s.self.offset <ℤ pos (o + (12 + length m.payload)) =
        subst (λ z. z <ℤ pos (o + (12 + length m.payload))) (sym at) (omega arith) in
      let later =
        poll_loop-Sends s.now s.self.offset rest s.self
          (entries_at-Behind s.self.offset (o + (12 + length m.payload)) ms next) live in
      poll_messages-Polls (e ∷ rest) (take (room s.self) rest) read' (
        subst (Sends (take (room s.self) rest) s.self)
          (sym (poll_old s.now s.self.offset e rest s.self old)) later)
