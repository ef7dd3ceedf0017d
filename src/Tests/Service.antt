-- ===== src/Tests/Service.antt =====
-- The shutdown of a process with a switch, a lamp and a message under way.
use mqtt_raspberry_controlle.Base.{ℕ, List, [], ◌∷◌, true, codes, ◌≡◌}
use mqtt_raspberry_controlle.Service.Interleaving.{
  Turn, goes_on, meanwhile, controller_begins, controller_ends, worker_stops, all_done,
  client_begins, client_ends, uses, sets, serving, play, shut_down,
}
use mqtt_raspberry_controlle.Service.Interleaving.Progress.{all_end, shut_down_progress}
use mqtt_raspberry_controlle.Service.Interleaving.Orderly.{Orderly, closes_lines, shut_down-Orderly}
use mqtt_raspberry_controlle.Tests.Configured.{home}
use mqtt_raspberry_controlle.Tests.Gpio.{library, with_free, opened}

abbrev lamp_on : Turn
lamp_on = meanwhile (uses (sets (codes "lamp") true))

-- A message arrives before the shutdown.
abbrev arrival : List Turn
arrival = meanwhile client_begins ∷ meanwhile controller_begins ∷ lamp_on ∷ []

-- It ends behind the worker, and another one comes too late.
abbrev ending : List Turn
ending =
    goes_on
    ∷ lamp_on
    ∷ goes_on
    ∷ meanwhile controller_ends
    ∷ meanwhile worker_stops
    ∷ meanwhile all_done
    ∷ goes_on
    ∷ lamp_on
    ∷ goes_on
    ∷ meanwhile client_ends
    ∷ goes_on
    ∷ goes_on
    ∷ meanwhile client_begins
    ∷ lamp_on
    ∷ []

shut_down-Orderly_example :
    let p = play library arrival (serving {K = ℕ} home opened.1 (with_free 0)) in
    let (e, r) = shut_down library (record { process = p; schedule = ending }) in
    Orderly opened.1 e r.process (play library r.schedule r.process)
shut_down-Orderly_example = shut_down-Orderly library ℕ home opened.1 (with_free 0) arrival ending

shut_down_progress_example :
    let p = play library arrival (serving {K = ℕ} home opened.1 (with_free 0)) in
    closes_lines (shut_down library (record { process = p; schedule = all_end p })).0 ≡ true
shut_down_progress_example = shut_down_progress library ℕ home opened.1 (with_free 0) arrival
