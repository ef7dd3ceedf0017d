-- ===== src/Controller/Dedupe/Refinement.antt =====
-- The duplicate cache refines a window: the list of the last 256 keys that were recorded.
use mqtt_raspberry_controlle.Base.{
  ℕ, zero, suc, none, ◌+◌, ◌-◌, ◌^◌, ◌≤◌, ◌<◌, Bool, true, false, not, ◌&&◌, ◌||◌, List, [], ◌∷◌,
  ◌++◌, ◌==◌, if◌then◌else◌, length, drop, ◌≡◌, refl, sym, arith, ◌∙◌, ap,
}
use mqtt_raspberry_controlle.Message.{Message}
use mqtt_raspberry_controlle.Controller.Dedupe.{
  duplicate_cache_size, Key, same_key, DedupeEntry, Dedupe, reset_dedupe, record_key, is_seen,
  key_of, Verdict, accepted, closed, retained, duplicate, accept_message,
}
use mqtt_raspberry_controlle.Controller.Dedupe.Window.{
  Inv, last_generation, window, record_key-order,
}

-- The keys that the cache stands for, oldest first.
pub keys : List DedupeEntry → List Key
keys [] = []
keys (e ∷ rest) = e.key ∷ keys rest

unfoldable pub member : Key → List Key → Bool
member k [] = false
member k (j ∷ js) = same_key j k || member k js

-- The specification: a control message with QoS 1 or 2 that repeats one of the last 256 keys is a
-- duplicate; any other one is accepted, and its key joins the window.
unfoldable pub window_accept : Bool → Bool → Message → List Key → Verdict × List Key
window_accept accepting cancelled message recent =
    if not accepting || cancelled
    then (closed, recent)
    else if message.retained
    then (retained, recent)
    else if message.qos == 0
    then (accepted, recent)
    else if message.duplicate && member (key_of message) recent
    then (duplicate, recent)
    else (accepted, window (recent ++ key_of message ∷ []))

is_seen-member :
    (k : Key) (order : List DedupeEntry) → is_seen (last_generation k order) ≡ member k (keys order)
unfolding is_seen last_generation member keys
is_seen-member k [] = refl
is_seen-member k (e ∷ rest) = ground (arith, is_seen-member k rest)

keys-append : (xs ys : List DedupeEntry) → keys (xs ++ ys) ≡ keys xs ++ keys ys
unfolding keys
keys-append [] ys = refl
keys-append (x ∷ xs) ys = ap (◌∷◌ x.key) (keys-append xs ys)

keys-drop : (n : ℕ) (xs : List DedupeEntry) → keys (drop n xs) ≡ drop n (keys xs)
unfolding keys
keys-drop zero xs = refl
keys-drop (suc n) [] = refl
keys-drop (suc n) (x ∷ xs) = keys-drop n xs

length-keys : (xs : List DedupeEntry) → length (keys xs) ≡ length xs
unfolding keys
length-keys [] = refl
length-keys (x ∷ xs) = ap suc (length-keys xs)

keys-window : (xs : List DedupeEntry) → keys (window xs) ≡ window (keys xs)
keys-window xs =
    keys-drop _ xs ∙ ap (λ n. drop (n - duplicate_cache_size) (keys xs)) (sym (length-keys xs))

record_key-keys :
    (k : Key) (d : Dedupe)
    → Inv d
    → d.seq + 1 < 2 ^ 64
    → keys (record_key k d).order ≡ window (keys d.order ++ k ∷ [])
unfolding keys
record_key-keys k d v fresh =
    let (_, order, _) = record_key-order k d v fresh in
    ap keys order
    ∙ keys-window (d.order ++ record { key = k; generation = d.seq + 1 } ∷ [])
    ∙ ap window (keys-append d.order (record { key = k; generation = d.seq + 1 } ∷ []))

-- One message: the cache decides as the window does, and goes on to stand for the window's keys.
pub accept_message-window :
    (accepting cancelled : Bool) (message : Message) (d : Dedupe)
    → Inv d
    → d.seq + 1 < 2 ^ 64
    → let (verdict, d') = accept_message accepting cancelled message d in
      Inv d'
      × (d'.seq ≤ d.seq + 1)
      × ((verdict, keys d'.order) ≡ window_accept accepting cancelled message (keys d.order))
unfolding accept_message window_accept
accept_message-window accepting cancelled message d v fresh =
    let k = key_of message in
    let (inv, _, counted) = record_key-order k d v fresh in
    let recorded = record_key-keys k d v fresh in
    let seen : is_seen (d.map k) ≡ member k (keys d.order) =
      ap is_seen (v.agree k) ∙ is_seen-member k d.order in
    (ground arith, ground arith, ground arith)

-- What reaches the cache: a message, or a new MQTT session.
pub data Event : Type 0 where
  message : Message → Event
  session : Event

pub step : Dedupe → Event → List Verdict × Dedupe
step d (message m) = let (verdict, d') = accept_message true false m d in (verdict ∷ [], d')
step d session = ([], reset_dedupe d)

pub run : Dedupe → List Event → List Verdict
run d [] = []
run d (e ∷ es) = let (verdicts, d') = step d e in verdicts ++ run d' es

window_step : List Key → Event → List Verdict × List Key
window_step recent (message m) =
    let (verdict, later) = window_accept true false m recent in (verdict ∷ [], later)
window_step recent session = ([], [])

pub window_run : List Key → List Event → List Verdict
unfolding window_step
window_run recent [] = []
window_run recent (e ∷ es) =
    let (verdicts, later) = window_step recent e in verdicts ++ window_run later es

pub empty-Inv : Inv (record { map = λ _. none; order = []; seq = 0 })
unfolding last_generation
empty-Inv = record { agree = λ k. refl; rising = omega arith; bounded = omega arith }

step-window :
    (d : Dedupe) (e : Event)
    → Inv d
    → d.seq + 1 < 2 ^ 64
    → let (verdicts, d') = step d e in
      Inv d' × (d'.seq ≤ d.seq + 1) × ((verdicts, keys d'.order) ≡ window_step (keys d.order) e)
unfolding step window_step reset_dedupe keys
step-window d (message m) v fresh =
    let (inv, counted, same_step) = accept_message-window true false m d v fresh in
    (inv, counted, ap (λ r. (r.0 ∷ [], r.1)) same_step)
step-window d session v fresh = (empty-Inv, omega arith, refl)

-- From a cache whose map gives each key its last generation in the order, over any history of
-- messages and sessions that arrive while the controller accepts, the cache accepts and rejects
-- exactly what the window of the last 256 keys does, if the counter plus the length of the history
-- stays below 2^64.
pub run-window :
    (d : Dedupe) (es : List Event)
    → Inv d
    → d.seq + length es < 2 ^ 64
    → run d es ≡ window_run (keys d.order) es
unfolding run window_run
run-window d [] v fresh = refl
run-window d (e ∷ es) v fresh =
    let (inv, counted, same_step) = step-window d e v (omega arith) in
    ap (◌++◌ (step d e).0) (run-window (step d e).1 es inv (omega arith))
    ∙ ap (λ r. r.0 ++ window_run r.1 es) same_step
