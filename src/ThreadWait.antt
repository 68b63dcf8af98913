-- ===== src/ThreadWait.antt =====
-- utility/pthread_wait.c, and how client/start.c and client/file_monitor.c use it: `client_start` starts
-- the file monitor, and then initialises the wait and waits; the monitor notifies it once.
pub mod Wakeup
use tele_sync.Prelude.{List, [], ◌∷◌, Option, none, some, Bool, true, false}

pub data ThreadStatus : Type 0 where
  thread_failed thread_running thread_terminated : ThreadStatus

-- Where the waiting thread is: before `pthread_wait_init`, before `pthread_wait_for`, in
-- `pthread_cond_wait`, or behind it.
pub data Waiter : Type 0 where
  starting ready blocked woken : Waiter

pub record Wait : Type 0 where
  pub status : ThreadStatus
  pub waiter : Waiter
  pub notified : Bool

-- One call, under its mutex, of the one thread or the other. A condition variable may also wake up by
-- itself.
pub data Call : Type 0 where
  wait_init wait_for wake_up : Call
  notify : ThreadStatus → Call

unfoldable pub pthread_wait_init : Wait → Option Wait
pthread_wait_init w = elim w.waiter [
  | starting ↦ some (record w { status = thread_failed; waiter = ready })
  | ready ↦ none
  | blocked ↦ none
  | woken ↦ none
]

unfoldable pub pthread_wait_for : Wait → Option Wait
pthread_wait_for w = elim w.waiter [
  | starting ↦ none
  | ready ↦ some (record w { waiter = blocked })
  | blocked ↦ none
  | woken ↦ none
]

-- `pthread_cond_signal` wakes a thread that waits, and is lost if none does.
unfoldable pub signalled : Waiter → Waiter
signalled starting = starting
signalled ready = ready
signalled blocked = woken
signalled woken = woken

-- The monitor notifies once.
unfoldable pub pthread_wait_notify : Wait → ThreadStatus → Option Wait
pthread_wait_notify w status = elim w.notified [
  | true ↦ none
  | false ↦ some (record { status = status; waiter = signalled w.waiter; notified = true })
]

unfoldable pub spurious : Wait → Option Wait
spurious w = elim w.waiter [
  | starting ↦ none
  | ready ↦ none
  | blocked ↦ some (record w { waiter = woken })
  | woken ↦ none
]

-- `none` is a call that the thread does not make there.
unfoldable pub call : Wait → Call → Option Wait
call w wait_init = pthread_wait_init w
call w wait_for = pthread_wait_for w
call w wake_up = spurious w
call w (notify status) = pthread_wait_notify w status

unfoldable pub calls_from : Option Wait → List Call → Option Wait
calls_from none cs = none
calls_from (some w) [] = some w
calls_from (some w) (c ∷ cs) = calls_from (call w c) cs

abbrev pub at_start : Wait
at_start = record { status = thread_failed; waiter = starting; notified = false }
