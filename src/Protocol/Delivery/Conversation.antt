-- ===== src/Protocol/Delivery/Conversation.antt =====
-- internal/network: two clients, one of which puts a message that the other one gets.
use yuclase.Base.{
  ℕ, ◌+◌, ◌^◌, ◌<◌, List, [], ◌∷◌, ◌++◌, append_assoc, take, length, ◌≡◌, sym, ap, ◌∙◌,
}
use mathlib.Core.Path.{subst}
use yuclase.Base.Bytes.{decimal, decimal_ℤ}
use yuclase.Base.Text.{join}
use yuclase.Base.Exec.{ok}
use yuclase.Storage.Disk.{On}
use yuclase.Storage.Log.Messages.Sequence.{Message, log_bytes}
use yuclase.Storage.Catalog.Consumers.{get_offset}
use yuclase.Topic.State.{Topic}
use yuclase.Topic.Messages.{enqueue as topic_enqueue}
use yuclase.Topic.Messages.Delivery.{HasRead, new_message}
use yuclase.Server.Session.{Session, crlf}
use yuclase.Server.Lines.{serve}
use yuclase.Client.Connection.{Client}
use yuclase.Protocol.Reply.{Fits, reply_text}
use yuclase.Protocol.Request.{put, listen, line_of, perform}
use yuclase.Protocol.Request.Calling.{call, answer, Answers, Faces, call-Exchanges}
use yuclase.Protocol.Delivery.{QueueHolds, payloads, perform-put, perform-listen}

module _ (name word : List ℕ) (words : List (List ℕ)) (id : List ℕ) (t : On Topic)
    (seen rest : List Message) where
  -- The messages that `id` has not had once the message is there.
  abbrev pub unread : List Message
  unread = rest ++ new_message (join (word ∷ words)) t ∷ []

  -- A client puts a message of words into a topic that holds `seen` and `rest` and gets the offset
  -- at which they end; then another client listens as `id`, which has had `seen`, and gets the
  -- first ten of `rest` and the new message, in order. The disk does not fail and the segment has
  -- room below 2 ^ 32 bytes, both connections work, nothing but the put comes before the listen,
  -- and the messages fit the lines of the client's scanner.
  pub listen-put :
      (c c' : Client) (s s' : Session)
      → QueueHolds name t (seen ++ rest) s.host
      → HasRead id seen t
      → length (log_bytes (seen ++ unread)) < 2 ^ 32
      → length (log_bytes (seen ++ rest)) + (12 + length (join (word ∷ words))) < 2 ^ 32
      → Faces (put name word words) c s
      → Faces (listen name id) c' s'
      → s'.host ≡ (serve (line_of (put name word words) ++ crlf) s).1.host
      → Fits (payloads (take 10 unread))
      → ((call (put name word words) c).0 ≡ ok (decimal (length (log_bytes (seen ++ rest)))))
        × ((call (listen name id) c').0 ≡ ok (reply_text (payloads (take 10 unread))))
  unfolding decimal_ℤ
  listen-put c c' s s' holds had room' room f f' after fits =
      let m = new_message (join (word ∷ words)) t in
      let t' = (topic_enqueue (join (word ∷ words)) t).1 in
      let (offset, held, same) = perform-put name word words t (seen ++ rest) s.host holds room in
      let puts = call-Exchanges (put name word words) c s f (subst Answers (sym offset) tt) in
      let held' : QueueHolds name t' (seen ++ unread) s'.host =
        subst (QueueHolds name t' (seen ++ unread)) (sym (after ∙ puts.stored)) (
          subst (λ ms. QueueHolds name t' ms (perform (put name word words) s.host).1)
            (append_assoc seen rest (m ∷ [])) held) in
      let (batch, left_behind, moved) =
        perform-listen name id t' seen unread s'.host held' (ap (get_offset id) same ∙ had) room' in
      let gets = call-Exchanges (listen name id) c' s' f' (subst Answers (sym batch) fits) in
      (puts.returned ∙ ap answer offset, gets.returned ∙ ap answer batch)
