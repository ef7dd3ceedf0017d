-- ===== src/Action/Control/Linux.antt =====
-- action/process_linux.go: `observeCommand` and `terminateCommandGroup`, under `runCommand`.
use mqtt_raspberry_controlle.Base.{Bool, true, not, ◌&&◌, ◌||◌, some, List, [], ◌∷◌, if◌then◌else◌}
use mqtt_raspberry_controlle.Action.Control.{
  Host, Stage, selecting, terminating, in_grace, waiting, finished, reaped, Move, exits,
  takes_number, context_ends, observes, goes_on, Waitid, interrupted, exit_seen, waitid_failed,
  is_running, signal, end_child, take_number, select,
}

-- The loop of observeCommand: WNOWAIT leaves the process a zombie.
unfoldable pub observe : Waitid → Host → Host
unfolding is_running
observe interrupted h = h
observe exit_seen h = if h.observed || is_running h.child then h else record h { observed = true }
observe (waitid_failed e) h =
    if h.observed then h else record h { observed = true; observe_error = some e }

-- waitCmd, behind <-done; cmd.Wait waits for a process that runs.
unfoldable pub wait : Host → Host
unfolding is_running
wait h =
    if h.observed && not (is_running h.child)
    then record h { child = reaped; stage = finished }
    else h

-- One stretch of runCommand, up to the next point where it waits.
unfoldable pub proceed : Stage → Bool → Bool → Host → Host
unfolding signal select wait
proceed selecting prefers_exit kill_works h = select prefers_exit h
proceed terminating prefers_exit kill_works h =
    if kill_works then record (signal h) { stage = in_grace } else record h { stage = waiting }
proceed in_grace prefers_exit kill_works h = record (if kill_works then signal h else h) {
  stage = waiting;
}
proceed waiting prefers_exit kill_works h = wait h
proceed finished prefers_exit kill_works h = h

unfoldable pub move : Move → Host → Host
unfolding end_child take_number observe proceed
move exits h = end_child h
move takes_number h = take_number h
move context_ends h = record h { context_done = true }
move (observes w) h = observe w h
move (goes_on prefers_exit kill_works) h = proceed h.stage prefers_exit kill_works h

unfoldable pub run : List Move → Host → Host
unfolding move
run [] h = h
run (m ∷ ms) h = run ms (move m h)
