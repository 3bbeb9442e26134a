-- ===== src/Scheduler/Loop.antt =====
-- app/scheduler/wake.py and the loop of app/scheduler/loop.py, step by step. Other code runs between
-- the steps, and may call `notify` at any time; a step has no await inside.
pub mod Wakeups
use nurix_takehome.Common.{Bool, true, false, ◌≡◌, ◌&&◌, Option, none, some, if◌then◌else◌}

-- `SchedulerWake`
pub record SchedulerWake : Type 0 where
  pub event : Bool

abbrev pub notify_wake : SchedulerWake → SchedulerWake
notify_wake w = record w { event = true }

abbrev pub clear : SchedulerWake → SchedulerWake
clear w = record w { event = false }

-- What `wait` returns, if it returns: the event is set, or a timeout is given and has passed.
unfoldable pub wait : Bool → Bool → SchedulerWake → Option Bool
wait timeout passed w =
    if w.event then some true else (if timeout && passed then some false else none)

-- Where the loop stands: in the wait, in the tick, or in the pause after a tick that failed.
pub data Phase : Type 0 where
  waiting ticking pausing : Phase

-- `asked` records whether `notify` was called since the last tick started; the code has no such
-- variable.
pub record Loop : Type 0 where
  pub wake : SchedulerWake
  pub phase : Phase
  pub asked : Bool

abbrev pub started : Loop
started = record { wake = record { event = false }; phase = waiting; asked = false }

-- The wait of the loop has a timeout. When it returns, the event is cleared and the tick starts.
pub data Step : Loop → Loop → Type 0 where
  notified : (l : Loop) → Step l (record l { wake = notify_wake l.wake; asked = true })
  begin :
      (l : Loop) (passed : Bool) {result : Bool}
      → l.phase ≡ waiting
      → wait true passed l.wake ≡ some result
      → Step l (record { wake = clear l.wake; phase = ticking; asked = false })
  tick_done : (l : Loop) → l.phase ≡ ticking → Step l (record l { phase = waiting })
  tick_failed : (l : Loop) → l.phase ≡ ticking → Step l (record l { phase = pausing })
  paused : (l : Loop) → l.phase ≡ pausing → Step l (record l { phase = waiting })

pub data Reach (l : Loop) : Loop → Type 0 where
  here : Reach l l
  next : {m n : Loop} → Reach l m → Step m n → Reach l n
