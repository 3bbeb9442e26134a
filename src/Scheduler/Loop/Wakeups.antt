-- ===== src/Scheduler/Loop/Wakeups.antt =====
-- No wakeup is lost.
use nurix_takehome.Common.{true, false, ◌≡◌, refl, subst, some}
use nurix_takehome.Scheduler.Loop.{
  SchedulerWake, clear, wait, Phase, waiting, ticking, pausing, Loop, started, Step, notified,
  begin, tick_done, tick_failed, paused, Reach, here, next,
}

pending-Step :
    {l m : Loop}
    → Step l m
    → (l.asked ≡ true → l.wake.event ≡ true)
    → m.asked ≡ true
    → m.wake.event ≡ true
pending-Step (notified l) h k = refl
pending-Step (begin l passed w r) h k = cc
pending-Step (tick_done l w) h k = h k
pending-Step (tick_failed l w) h k = h k
pending-Step (paused l w) h k = h k

pending : {l : Loop} → Reach started l → l.asked ≡ true → l.wake.event ≡ true
pending here h = cc
pending (next r st) h = pending-Step st (pending r) h

set_wait : (w : SchedulerWake) → w.event ≡ true → wait true false w ≡ some true
unfolding wait
set_wait w h = rw h refl

Reach-trans : {l m n : Loop} → Reach l m → Reach m n → Reach l n
Reach-trans r here = r
Reach-trans r (next q st) = next (Reach-trans r q) st

-- The loop comes to wait from wherever it stands, and leaves the event alone on the way.
to_waiting : (l : Loop) → Reach l (record l { phase = waiting })
to_waiting l = to_phase l.phase refl
  where
    to_phase : (p : Phase) → l.phase ≡ p → Reach l (record l { phase = waiting })
    to_phase waiting e = subst (λ q. Reach l (record l { phase = q })) e here
    to_phase ticking e = next here (tick_done l e)
    to_phase pausing e = next here (paused l e)

-- If `notify` was called since the last tick started, wherever the loop then stands, the event is
-- set: a wait returns at once, without its timeout. The loop can go on to start another tick from
-- there, also from a tick that is running and from the pause after one that failed.
pub notify-wait :
    {l : Loop}
    → Reach started l
    → l.asked ≡ true
    → (wait true false l.wake ≡ some true)
      × (m : Loop) × Reach l m
      × (m.phase ≡ ticking)
      × (m.asked ≡ false)
notify-wait {l} r h =
    let set = set_wait l.wake (pending r h) in
    (
      set,
      record { wake = clear l.wake; phase = ticking; asked = false },
      next (to_waiting l) (begin (record l { phase = waiting }) false refl set),
      refl,
      refl,
    )
