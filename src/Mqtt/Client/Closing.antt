-- ===== src/Mqtt/Client/Closing.antt =====
-- mqtt/client.go: what `Close` has done where it succeeds, and the time that it takes.
use mqtt_raspberry_controlle.Base.{
  ℕ, ◌+◌, ◌-◌, ◌*◌, ◌/◌, ◌^◌, ◌≤◌, min, Bool, true, false, none, some, Bytes, codes, ◌==◌, ◌≡◌,
  refl, ◌⊎◌, inl, inr, arith, Bool-cases, Option-cases,
}
use mqtt_raspberry_controlle.Config.{Config}
use mqtt_raspberry_controlle.Config.Defaults.{mqtt_qos}
use mqtt_raspberry_controlle.Mqtt.Log.{second}
use mqtt_raspberry_controlle.Mqtt.Transport.{Transport, Waited, timed_out, finished}
use mqtt_raspberry_controlle.Mqtt.Client.{
  Client, outcome, client_status_topic, publish_with_timeout, close_connection, close,
  stop_accepting,
}

module _ {S : Type 0} (transport : Transport S) (cfg : Config) where
  -- The broker has confirmed the retained offline status, within the time that was left, and then the
  -- connection was ended, with a delay that is within the time that was left.
  pub record SaidGoodbye (deadline : ℕ) (s s' : S) : Type 0 where
    pub limit : ℕ
    pub quiesce : ℕ
    pub sent : S
    pub published :
        transport.publish
          (client_status_topic transport cfg)
          (codes "offline")
          (mqtt_qos cfg)
          true
          limit
          s
        ≡ (finished none, sent)
    pub in_time : transport.now s + limit ≤ deadline
    pub disconnected : s' ≡ transport.disconnect quiesce sent
    pub quiesce_in_time : transport.now sent + quiesce * 10 ^ 6 ≤ deadline

  outcome_success :
      (topic : Bytes) (x : Waited × S)
      → (outcome transport cfg topic x).0 ≡ none
      → x ≡ (finished none, (outcome transport cfg topic x).1)
  unfolding outcome
  outcome_success topic (timed_out, s) h = cc
  outcome_success topic (finished none, s) h = refl
  outcome_success topic (finished (some e), s) h = cc

  publish_success :
      (topic payload : Bytes) (qos : ℕ) (retain : Bool) (timeout : ℕ) (s : S)
      → (publish_with_timeout transport cfg topic payload qos retain timeout s).0 ≡ none
      → transport.publish topic payload qos retain timeout s
        ≡ (finished none, (publish_with_timeout transport cfg topic payload qos retain timeout s).1)
  unfolding publish_with_timeout
  publish_success topic payload qos retain timeout s h =
      elim (Bool-cases (transport.is_connected s)) [
        | inr e ↦ absurd (ground (arith, rw e at h))
        | inl e ↦ elim (Bool-cases (timeout == 0)) [
          | inl zero_time ↦ absurd (ground (arith, rw (e, zero_time) at h))
          | inr some_time ↦
              rw (e, some_time)
                (outcome_success topic (transport.publish topic payload qos retain timeout s)
                  (rw (e, some_time) at h))
        ]
      ]

  close_connection_success :
      (deadline : ℕ) (s : S)
      → (close_connection transport cfg deadline s).0 ≡ none
      → SaidGoodbye deadline s (close_connection transport cfg deadline s).1
  unfolding close_connection
  close_connection_success deadline s h =
      let limit = min (5 * second) (deadline - transport.now s) in
      let r =
        publish_with_timeout transport cfg (client_status_topic transport cfg) (codes "offline")
          (mqtt_qos cfg) true limit s in
      elim (Bool-cases (deadline - transport.now s == 0)) [
        | inl late ↦ absurd (ground (arith, rw late at h))
        | inr early ↦ elim (Bool-cases (deadline - transport.now r.1 == 0)) [
          | inl late ↦ absurd (ground (arith, rw (early, late) at h))
          | inr later ↦ elim (Option-cases r.0) [
            | inr (e, failed) ↦ absurd (ground (arith, rw (early, later, failed) at h))
            | inl sent ↦
                rw (early, later)
                  (record {
                    limit = limit;
                    quiesce = min (second / 2) (deadline - transport.now r.1) / 10 ^ 6;
                    sent = r.1;
                    published =
                        publish_success (client_status_topic transport cfg) (codes "offline")
                          (mqtt_qos cfg) true limit s sent;
                    in_time = ground (arith, early);
                    disconnected = refl;
                    quiesce_in_time = ground (arith, later);
                  })
          ]
        ]
      ]

  -- Where `Close` returns no error, the client takes no more callbacks, those in flight have ended by the
  -- deadline, and there was no connection then, or the broker has confirmed the offline status and the
  -- connection is ended, both with time-outs that keep the deadline.
  pub close_success :
      (timeout : ℕ) (c : Client S) (s : S)
      → (close transport cfg timeout c s).0 ≡ none
      → let (_, c', s') = close transport cfg timeout c s in
        let deadline = transport.now s + timeout in
        let (ended, s1) = transport.wait_callbacks deadline s in
        (c'.accepting ≡ false)
        × (ended ≡ true)
        × (((transport.is_connected s1 ≡ false) × (s' ≡ s1)) ⊎ SaidGoodbye deadline s1 s')
  unfolding close stop_accepting
  close_success timeout c s h =
      let deadline = transport.now s + timeout in
      let (ended, s1) = transport.wait_callbacks deadline s in
      elim (Bool-cases ended) [
        | inr e ↦ absurd (ground (arith, rw e at h))
        | inl e ↦ elim (Bool-cases (transport.is_connected s1)) [
          | inr offline ↦ rw (e, offline) (refl, refl, inl (refl, refl))
          | inl online ↦
              rw (e, online)
                (refl, refl, inr (close_connection_success deadline s1 (rw (e, online) at h)))
        ]
      ]
