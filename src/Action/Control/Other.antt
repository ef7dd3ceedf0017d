-- ===== src/Action/Control/Other.antt =====
-- action/process_other.go: `observeCommand` and `terminateCommandGroup`, under `runCommand`.
pub mod Single
pub mod Binding
use mqtt_raspberry_controlle.Base.{
  Bool, true, false, not, ◌&&◌, ◌||◌, Option, none, some, List, [], ◌∷◌, Bytes, if◌then◌else◌,
}
use mqtt_raspberry_controlle.Config.Outside.{FileInfo, is_executable}
use mqtt_raspberry_controlle.Action.Control.{
  Host, Stage, selecting, terminating, in_grace, waiting, finished, reaped, Move, exits,
  takes_number, context_ends, observes, goes_on, Waitid, interrupted, exit_seen, waitid_failed,
  is_running, signal, end_child, take_number, select,
}

-- The goroutine of observeCommand: cmd.Wait returns, the process is gone.
unfoldable pub observe : Host → Host
unfolding is_running
observe h =
    if h.observed || is_running h.child then h else record h { child = reaped; observed = true }

-- bindCommandExecutable; `stat` is os.Stat. The command is then started by its path.
unfoldable pub bind_command_executable : (Bytes → Option FileInfo) → Bytes → Bool
bind_command_executable stat path = elim (stat path) [
  | none ↦ false
  | some info ↦ info.is_regular && is_executable info
]

-- terminateCommandGroup has no time of grace; waitCmd is <-done.
unfoldable pub proceed : Stage → Bool → Bool → Host → Host
unfolding signal select
proceed selecting prefers_exit kill_works h = select prefers_exit h
proceed terminating prefers_exit kill_works h = record (if kill_works then signal h else h) {
  stage = waiting;
}
proceed in_grace prefers_exit kill_works h = h
proceed waiting prefers_exit kill_works h = if h.observed then record h { stage = finished } else h
proceed finished prefers_exit kill_works h = h

unfoldable pub move : Move → Host → Host
unfolding end_child take_number observe proceed
move exits h = end_child h
move takes_number h = take_number h
move context_ends h = record h { context_done = true }
move (observes w) h = observe h
move (goes_on prefers_exit kill_works) h = proceed h.stage prefers_exit kill_works h

unfoldable pub run : List Move → Host → Host
unfolding move
run [] h = h
run (m ∷ ms) h = run ms (move m h)
