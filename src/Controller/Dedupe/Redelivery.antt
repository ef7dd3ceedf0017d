-- ===== src/Controller/Dedupe/Redelivery.antt =====
-- A message that the broker delivers again is not taken for a new command.
use mqtt_raspberry_controlle.Base.{
  ℕ, zero, suc, ◌+◌, ◌-◌, ◌^◌, ◌≤◌, ◌<◌, ◌==◌, true, false, ◌&&◌, List, [], ◌∷◌, ◌++◌, append_assoc,
  length, length-append, drop, ◌≡◌, refl, sym, ap, subst, ◌∙◌, arith, Bool-cases, inl, inr,
}
use mqtt_raspberry_controlle.Message.{Message}
use mqtt_raspberry_controlle.Controller.Dedupe.{
  duplicate_cache_size, Key, Dedupe, key_of, accepted, duplicate, accept_message,
}
use mqtt_raspberry_controlle.Controller.Dedupe.Window.{Inv, window, same_key_iff}
use mqtt_raspberry_controlle.Controller.Dedupe.Refinement.{
  keys, member, window_accept, accept_message-window,
}

-- The key stands in the window, with at most `n` behind it.
record Behind (k : Key) (n : ℕ) (recent : List Key) : Type 0 where
  before : List Key
  later : List Key
  parts : recent ≡ before ++ k ∷ later
  few : length later ≤ n

member-append : (k : Key) (before later : List Key) → member k (before ++ k ∷ later) ≡ true
unfolding member
member-append k [] later = ground (arith, (same_key_iff k k).1 refl)
member-append k (j ∷ before) later = ground (arith, member-append k before later)

drop-append : (n : ℕ) (xs ys : List Key) → n ≤ length xs → drop n (xs ++ ys) ≡ drop n xs ++ ys
drop-append zero xs ys h = refl
drop-append (suc n) [] ys h = absurd (omega arith)
drop-append (suc n) (x ∷ xs) ys h = drop-append n xs ys (omega arith)

-- One more key, while the window has room behind this one.
window-Behind :
    (k new : Key) (n : ℕ) (recent : List Key)
    → n + 2 ≤ duplicate_cache_size
    → Behind k n recent
    → Behind k (n + 1) (window (recent ++ new ∷ []))
window-Behind k new n recent room v =
    let later = v.later ++ new ∷ [] in
    let text : recent ++ new ∷ [] ≡ v.before ++ k ∷ later =
      ap (λ xs. xs ++ new ∷ []) v.parts ∙ append_assoc v.before (k ∷ v.later) (new ∷ []) in
    let total = length (v.before ++ k ∷ later) in
    let enough : total - duplicate_cache_size ≤ length v.before =
      omega (arith, v.few, length-append v.before (k ∷ later), length-append v.later (new ∷ [])) in
    record {
      before = drop (total - duplicate_cache_size) v.before;
      later = later;
      parts =
          ap window text ∙ drop-append (total - duplicate_cache_size) v.before (k ∷ later) enough;
      few = omega (arith, v.few, length-append v.later (new ∷ []));
    }

more-Behind : (k : Key) (n : ℕ) (recent : List Key) → Behind k n recent → Behind k (n + 1) recent
more-Behind k n recent v = record {
  before = v.before;
  later = v.later;
  parts = v.parts;
  few = omega (arith, v.few);
}

accept-Behind :
    (k : Key) (n : ℕ) (m : Message) (recent : List Key)
    → n + 2 ≤ duplicate_cache_size
    → Behind k n recent
    → Behind k (n + 1) (window_accept true false m recent).1
unfolding window_accept member key_of
accept-Behind k n m recent room v = elim (Bool-cases m.retained) [
  | inl e ↦ rw e (more-Behind k n recent v)
  | inr e ↦ elim (Bool-cases (m.qos == 0)) [
    | inl e1 ↦ rw (e, e1) (more-Behind k n recent v)
    | inr e1 ↦ elim (Bool-cases (m.duplicate && member (key_of m) recent)) [
      | inl e2 ↦ rw (e, e1, e2) (more-Behind k n recent v)
      | inr e2 ↦ rw (e, e1, e2) (window-Behind k (key_of m) n recent room v)
    ]
  ]
]

-- The cache behind some messages.
unfoldable pub after_messages : List Message → Dedupe → Dedupe
after_messages [] d = d
after_messages (m ∷ ms) d = after_messages ms (accept_message true false m d).1

after-Behind :
    (k : Key) (n : ℕ) (ms : List Message) (d : Dedupe)
    → Inv d
    → d.seq + length ms < 2 ^ 64
    → n + length ms + 1 ≤ duplicate_cache_size
    → Behind k n (keys d.order)
    → let d' = after_messages ms d in
      Inv d' × (d'.seq ≤ d.seq + length ms) × Behind k (n + length ms) (keys d'.order)
unfolding after_messages
after-Behind k n [] d v fresh room b =
    (v, omega arith, subst (λ j. Behind k j (keys d.order)) (omega arith) b)
after-Behind k n (m ∷ ms) d v fresh room b =
    let (v1, counted, same_step) = accept_message-window true false m d v (omega arith) in
    let b1 : Behind k (n + 1) (keys (accept_message true false m d).1.order) =
      subst (Behind k (n + 1)) (sym (ap (λ r. r.1) same_step))
        (accept-Behind k n m (keys d.order) (omega arith) b) in
    let (v2, counted2, b2) =
      after-Behind k (n + 1) ms (accept_message true false m d).1 v1 (omega arith) (omega arith)
        b1 in
    (
      v2,
      omega (arith, counted, counted2),
      subst (λ j. Behind k j (keys (after_messages ms (accept_message true false m d).1).order))
          (omega arith) b2,
    )

-- A message that is accepted and has a QoS stands at the end of the window.
accepted-Behind :
    (m : Message) (recent : List Key)
    → m.retained ≡ false
    → (m.qos == 0) ≡ false
    → (window_accept true false m recent).0 ≡ accepted
    → Behind (key_of m) 0 (window_accept true false m recent).1
unfolding window_accept member key_of
accepted-Behind m recent live acknowledged h =
    elim (Bool-cases (m.duplicate && member (key_of m) recent)) [
      | inl e ↦ absurd (ground (arith, rw (live, acknowledged, e) at h))
      | inr e ↦
          rw (live, acknowledged, e)
            (record {
              before = drop (length (recent ++ key_of m ∷ []) - duplicate_cache_size) recent;
              later = [];
              parts =
                  drop-append (length (recent ++ key_of m ∷ []) - duplicate_cache_size) recent
                    (key_of m ∷ []) (omega (arith, length-append recent (key_of m ∷ [])));
              few = omega arith;
            })
    ]

repeated_verdict :
    (m : Message) (n : ℕ) (recent : List Key)
    → m.retained ≡ false
    → (m.qos == 0) ≡ false
    → Behind (key_of m) n recent
    → (window_accept true false (record m { duplicate = true }) recent).0 ≡ duplicate
unfolding window_accept member key_of
repeated_verdict m n recent live acknowledged b =
    let there : member (key_of m) recent ≡ true =
      rw (b.parts) (member-append (key_of m) b.before b.later) in
    rw (live, acknowledged, there) refl

-- A message with QoS 1 or 2 that was accepted is rejected when it is delivered again, marked as a
-- duplicate, behind at most 255 other messages of the same session: if the cache's map gives each key
-- its last generation in the order, and its counter stays below 2^64.
pub redelivery_rejected :
    (m : Message) (between : List Message) (d : Dedupe)
    → Inv d
    → d.seq + length between + 2 < 2 ^ 64
    → length between < duplicate_cache_size
    → m.retained ≡ false
    → (m.qos == 0) ≡ false
    → (accept_message true false m d).0 ≡ accepted
    → let d' = after_messages between (accept_message true false m d).1 in
      (accept_message true false (record m { duplicate = true }) d').0 ≡ duplicate
redelivery_rejected m between d v fresh few live acknowledged first =
    let k = key_of m in
    let (v1, counted, same_step) = accept_message-window true false m d v (omega arith) in
    let d1 = (accept_message true false m d).1 in
    let b1 : Behind k 0 (keys d1.order) = subst (Behind k 0) (sym (ap (λ r. r.1) same_step)) (
      accepted-Behind m (keys d.order) live acknowledged (sym (ap (λ r. r.0) same_step) ∙ first)) in
    let (v2, counted2, b2) = after-Behind k 0 between d1 v1 (omega arith) (omega arith) b1 in
    let d2 = after_messages between d1 in
    let again : Message = record m { duplicate = true } in
    let (_, _, last) = accept_message-window true false again d2 v2 (omega arith) in
    ap (λ r. r.0) last
    ∙ repeated_verdict m (0 + length between) (keys d2.order) live acknowledged b2
