-- ===== src/Timer/Tests.antt =====
-- Runs of the timer, and the theorems at them.
use sp25_ece391_group.Base.{◌≡◌, refl, true, List, [], ◌∷◌, arith}
use sp25_ece391_group.Timer.{
  boot_sie, Slept, Alarm, Timer, sleeping, null_write, later, alarm_sleep, handle_timer_interrupt,
}
use sp25_ece391_group.Timer.Order.{IsTimer, SleptWell, alarm_sleep-SleptWell}
use sp25_ece391_group.Timer.Wake.{Handled, handle_timer_interrupt-Handled}

abbrev first : Alarm
first = record { cond = 1; twake = 100 }

abbrev second : Alarm
second = record { cond = 2; twake = 200 }

abbrev two : Timer
two = record { sleep_list = first ∷ second ∷ []; stcmp = 100; sie = boot_sie }

two-IsTimer : IsTimer two
two-IsTimer = record { sorted = ((omega arith, tt), (tt, tt)); armed = refl; enabled = refl }

abbrev other : Alarm
other = record { cond = 3; twake = 50 }

abbrev sleep_list_of : Slept → List Alarm
sleep_list_of (sleeping a u) = u.sleep_list
sleep_list_of _ = []

sleeps_between :
    sleep_list_of (alarm_sleep other 100 60 two)
    ≡ first ∷ record other { twake = 150 } ∷ second ∷ []
unfolding alarm_sleep
sleeps_between = refl

-- The last alarm is woken; the interrupt stays enabled, as bits 0 and 2 are cleared in place of bit 5.
still_enabled : (handle_timer_interrupt 300 two).1.sie 5 ≡ true
unfolding handle_timer_interrupt
still_enabled = refl

-- An alarm for the same time as the first one.
same_time : alarm_sleep other 50 60 two ≡ null_write
unfolding alarm_sleep
same_time = refl

alarm_sleep-SleptWell_example : SleptWell two (later 50 50) 60 (alarm_sleep other 50 60 two)
alarm_sleep-SleptWell_example = alarm_sleep-SleptWell other 50 60 two two-IsTimer

handle_timer_interrupt-Handled_example :
    let (woken, u) = handle_timer_interrupt 120 two in Handled 120 two woken u
handle_timer_interrupt-Handled_example = handle_timer_interrupt-Handled 120 two two-IsTimer
