-- ===== src/MotionLock.antt =====
-- onboard/src/motion_lock.cpp: the interlock between motor motion and heating. Every method runs
-- under the mutex, so each is one step on the holder; -1 is a free lock.
use coatheal_flight_software.Prelude.{Bool, true, false, not, if◌then◌else◌}
use coatheal_flight_software.Prelude.Int.{ℤ, negsuc, ◌==ℤ◌}

pub record MotionLock : Type 0 where
  pub holder : ℤ

abbrev pub nobody : ℤ
nobody = negsuc 0

abbrev pub free : MotionLock
free = record { holder = nobody }

unfoldable pub is_active : MotionLock → Bool
is_active l = not (l.holder ==ℤ nobody)

unfoldable pub try_acquire : ℤ → MotionLock → Bool × MotionLock
try_acquire motor l =
    if not (l.holder ==ℤ nobody) then (false, l) else (true, record l { holder = motor })

unfoldable pub release : ℤ → MotionLock → MotionLock
release motor l = if l.holder ==ℤ motor then record l { holder = nobody } else l
