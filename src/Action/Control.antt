-- ===== src/Action/Control.antt =====
-- action/process_linux.go and action/process_other.go: the observer of a command, and `runCommand` of
-- action/executor.go behind cmd.Start, in any interleaving with the process and the kernel.
pub mod Linux
pub mod Ownership
pub mod Other
use mqtt_raspberry_controlle.Base.{
  ℕ, suc, Bool, true, false, not, ◌&&◌, ◌||◌, Option, none, some, List, [], ◌∷◌, Bytes,
  if◌then◌else◌,
}

-- A process that has ended is a zombie until it is waited for; then its number is free.
pub data Child : Type 0 where
  running zombie reaped : Child

-- What unix.Waitid returns: EINTR, the exit, or another error.
pub data Waitid : Type 0 where
  interrupted exit_seen : Waitid
  waitid_failed : Bytes → Waitid

-- Where `runCommand` stands: in its `select`, in `terminateCommandGroup` before a signal, in the time
-- of grace, in waiter.wait(), or behind it.
pub data Stage : Type 0 where
  selecting terminating in_grace waiting finished : Stage

-- Whom a signal reaches.
pub data Target : Type 0 where
  command_group nobody stranger : Target

-- `taken` says that the kernel has given the process number to another process, `observed` that
-- waiter.done is closed; `signalled` is what the signals reached, the latest first.
pub record Host : Type 0 where
  pub child : Child
  pub taken : Bool
  pub context_done : Bool
  pub observed : Bool
  pub observe_error : Option Bytes
  pub stage : Stage
  pub signalled : List Target

-- What happens next: the process ends, the kernel uses a free number again, the context ends, the
-- wait of the observer returns, or `runCommand` goes on. `prefers_exit` is the case that a `select` with
-- two ready cases takes, `kill_works` says that a signal is not refused.
pub data Move : Type 0 where
  exits takes_number context_ends : Move
  observes : Waitid → Move
  goes_on : (prefers_exit kill_works : Bool) → Move

-- Behind cmd.Start.
unfoldable pub started : Host
started = record {
  child = running;
  taken = false;
  context_done = false;
  observed = false;
  observe_error = none;
  stage = selecting;
  signalled = [];
}

unfoldable pub is_running : Child → Bool
is_running running = true
is_running _ = false

unfoldable pub is_reaped : Child → Bool
is_reaped reaped = true
is_reaped _ = false

-- The holder of the number.
unfoldable pub target : Host → Target
unfolding is_reaped
target h = if not (is_reaped h.child) then command_group else if h.taken then stranger else nobody

unfoldable pub signal : Host → Host
unfolding target
signal h = record h { signalled = target h ∷ h.signalled }

unfoldable pub end_child : Host → Host
unfolding is_running
end_child h = if is_running h.child then record h { child = zombie } else h

unfoldable pub take_number : Host → Host
unfolding is_reaped
take_number h = if is_reaped h.child then record h { taken = true } else h

-- The `select` of runCommand.
unfoldable pub select : Bool → Host → Host
select prefers_exit h =
    if h.observed && (prefers_exit || not h.context_done)
    then record h { stage = waiting }
    else if h.context_done
    then record h { stage = terminating }
    else h
