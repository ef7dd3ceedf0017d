-- ===== src/Controller/Queue/Delivery.antt =====
-- mqtt/client.go and controller/controller.go: the way of a message from the MQTT library through
-- `dispatchMessage`, `enqueueSwitch` and `acceptMessage` to the queue. The state behind the client is the
-- entity.
use mqtt_raspberry_controlle.Base.{
  ◌+◌, ◌^◌, ◌≤◌, ◌<◌, ◌==◌, Bool, true, false, not, ◌&&◌, ◌||◌, Option, none, some, List, [], ◌∷◌,
  ◌++◌, length, ltb, if◌then◌else◌, ◌≡◌, ◌↔◌, ◌⊎◌, inl, inr, refl, ap, ◌∙◌, arith, Bool-cases,
}
use mqtt_raspberry_controlle.Message.{Message}
use mqtt_raspberry_controlle.Config.{Config}
use mqtt_raspberry_controlle.Mqtt.Transport.{Transport, PahoMessage}
use mqtt_raspberry_controlle.Mqtt.Client.{
  Client, max_command_payload, message_from_paho, on_message,
}
use mqtt_raspberry_controlle.Mqtt.Client.Delivery.{on_message_delivery}
use mqtt_raspberry_controlle.Controller.Dedupe.{
  Key, Verdict, accepted, closed, retained, duplicate, key_of, accept_message,
}
use mqtt_raspberry_controlle.Controller.Dedupe.Window.{Inv}
use mqtt_raspberry_controlle.Controller.Dedupe.Refinement.{
  keys, member, window_accept, accept_message-window,
}
use mqtt_raspberry_controlle.Controller.Queue.{
  entity_queue_capacity, Entity, arrive, enqueue, on_arrive, on_enqueue, on_overflow, move, run,
}

-- enqueueSwitch and enqueueButton, with nothing in between.
unfoldable pub enqueue_command : Message → Entity → Entity
enqueue_command m s = run (arrive m ∷ enqueue ∷ []) s

is_accepted : Verdict → Bool
is_accepted accepted = true
is_accepted _ = false

accepted_callback : (v : Verdict) (m : Message) → Option Message
unfolding is_accepted
accepted_callback v m = if is_accepted v then some m else none

on_arrive-parts :
    (m : Message) (s : Entity)
    → s.callback ≡ none
    → let t = on_arrive m s in
      (t.queue ≡ s.queue)
      × (t.enqueued ≡ s.enqueued)
      × (t.callback ≡ accepted_callback (accept_message s.accepting s.cancelled m s.dedupe).0 m)
unfolding on_arrive accepted_callback is_accepted
on_arrive-parts m s idle =
    rw (on_arrive, idle)
      (refl, refl, by_verdict (accept_message s.accepting s.cancelled m s.dedupe).0)
  where
    by_verdict :
        (v : Verdict)
        → ◌≡◌ {A = Option Message} (elim v [ accepted ↦ some m | _ ↦ none ]) (accepted_callback v m)
    by_verdict accepted = refl
    by_verdict closed = refl
    by_verdict retained = refl
    by_verdict duplicate = refl

on_enqueue-enqueued :
    (v : Verdict) (m : Message) (s : Entity)
    → s.callback ≡ accepted_callback v m
    → (on_enqueue s).enqueued ≡ (
        if is_accepted v && ltb (length s.queue) entity_queue_capacity
        then s.enqueued ++ m ∷ []
        else s.enqueued)
unfolding on_enqueue on_overflow accepted_callback is_accepted
on_enqueue-enqueued accepted m s e =
    elim (Bool-cases (ltb (length s.queue) entity_queue_capacity)) [
      | inl room ↦ rw (e, on_enqueue, room) refl
      | inr full ↦ rw (e, on_enqueue, full) refl
    ]
on_enqueue-enqueued closed m s e = rw (e, on_enqueue) refl
on_enqueue-enqueued retained m s e = rw (e, on_enqueue) refl
on_enqueue-enqueued duplicate m s e = rw (e, on_enqueue) refl

enqueue_command-enqueued :
    (m : Message) (s : Entity)
    → s.callback ≡ none
    → (enqueue_command m s).enqueued ≡ (
        if is_accepted (accept_message s.accepting s.cancelled m s.dedupe).0
          && ltb (length s.queue) entity_queue_capacity
        then s.enqueued ++ m ∷ []
        else s.enqueued)
unfolding enqueue_command run move
enqueue_command-enqueued m s idle =
    let v = (accept_message s.accepting s.cancelled m s.dedupe).0 in
    let (queue, enqueued, callback) = on_arrive-parts m s idle in
    on_enqueue-enqueued v m (on_arrive m s) callback ∙ rw (queue, enqueued) refl

is_accepted-window :
    (accepting cancelled : Bool) (m : Message) (recent : List Key)
    → is_accepted (window_accept accepting cancelled m recent).0 ≡ (
        (accepting && not cancelled)
        && (not m.retained && ((m.qos == 0) || not (m.duplicate && member (key_of m) recent))))
unfolding is_accepted window_accept
is_accepted-window accepting cancelled m recent = ground arith

-- A message with QoS 1 or 2 that is marked as a duplicate and repeats one of the recorded keys.
abbrev pub Repeats : PahoMessage → Entity → Type 0
Repeats m s =
    (0 < m.qos)
    × (m.duplicate ≡ true)
    × (member (key_of (message_from_paho m)) (keys s.dedupe.order) ≡ true)

-- Both components accept work, and the message is short, not retained and no repetition, and finds room
-- in the queue.
pub record Wanted (c : Client Entity) (s : Entity) (m : PahoMessage) : Type 0 where
  pub client_accepts : c.accepting ≡ true
  pub short : length m.payload ≤ 4096
  pub controller_accepts : s.accepting ≡ true
  pub goes_on : s.cancelled ≡ false
  pub live : m.retained ≡ false
  pub fresh : ¬ Repeats m s
  pub room : length s.queue < 32

-- The tests of the code, one behind the other.
is_wanted : Client Entity → Entity → PahoMessage → Bool
is_wanted c s m =
    c.accepting
    && (not (ltb max_command_payload (length m.payload))
        && (((s.accepting && not s.cancelled)
              && (not m.retained
                  && ((m.qos == 0)
                      || not (
                          m.duplicate
                          && member (key_of (message_from_paho m)) (keys s.dedupe.order)))))
            && ltb (length s.queue) entity_queue_capacity))

is_wanted_iff :
    (c : Client Entity) (s : Entity) (m : PahoMessage) → (is_wanted c s m ≡ true) ↔ Wanted c s m
unfolding is_wanted
is_wanted_iff c s m = ground arith

module _ (transport : Transport Entity) (cfg : Config) where
  on_message-enqueued :
      (m : PahoMessage) (c : Client Entity) (s : Entity)
      → Inv s.dedupe
      → s.dedupe.seq + 1 < 2 ^ 64
      → s.callback ≡ none
      → (on_message transport cfg enqueue_command m c s).1.enqueued
        ≡ (if is_wanted c s m then s.enqueued ++ message_from_paho m ∷ [] else s.enqueued)
  unfolding is_wanted message_from_paho
  on_message-enqueued m c s v fresh idle =
      let message = message_from_paho m in
      let (_, _, behind) = on_message_delivery transport cfg enqueue_command m c s in
      let queued = enqueue_command-enqueued message s idle in
      let (_, _, refined) =
        accept_message-window s.accepting s.cancelled message s.dedupe v fresh in
      let accepts =
        ap (λ r. is_accepted r.0) refined
        ∙ is_accepted-window s.accepting s.cancelled message (keys s.dedupe.order) in
      ap (λ (t : Entity). t.enqueued) behind ∙ (elim (Bool-cases c.accepting) [
        | inr off ↦ rw off refl
        | inl on ↦ elim (Bool-cases (ltb max_command_payload (length m.payload))) [
          | inl long ↦ rw (on, long) refl
          | inr short ↦ rw (on, short) (queued ∙ rw accepts refl)
        ]
      ])

  -- From the library to the queue, while no other callback of the entity is under way: a message is
  -- queued, at the end, exactly if the client and the controller accept work, it has at most 4096 bytes, is
  -- not retained, does not repeat one of the last 256 recorded keys as a duplicate, and there are fewer
  -- than 32 commands in the queue; otherwise nothing is queued. The client's callback has ended, and the
  -- client goes on accepting as it did. The cache's map gives each key its last generation in the order,
  -- and its counter stays below 2^64.
  pub delivery_queues :
      (m : PahoMessage) (c : Client Entity) (s : Entity)
      → Inv s.dedupe
      → s.dedupe.seq + 1 < 2 ^ 64
      → s.callback ≡ none
      → let (c', t) = on_message transport cfg enqueue_command m c s in
        (c'.callbacks ≡ c.callbacks)
        × (c'.accepting ≡ c.accepting)
        × ((Wanted c s m × (t.enqueued ≡ s.enqueued ++ message_from_paho m ∷ []))
            ⊎ (¬ Wanted c s m × (t.enqueued ≡ s.enqueued)))
  delivery_queues m c s v fresh idle =
      let (count, accepting, _) = on_message_delivery transport cfg enqueue_command m c s in
      let queued = on_message-enqueued m c s v fresh idle in
      let (to_wanted, from_wanted) = is_wanted_iff c s m in
      (
        count,
        accepting,
        elim (Bool-cases (is_wanted c s m)) [
          | inl e ↦ inl (to_wanted e, queued ∙ rw e refl)
          | inr e ↦ inr ((λ w. absurd (ground (arith, from_wanted w, e))), queued ∙ rw e refl)
        ],
      )
