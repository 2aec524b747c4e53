-- ===== src/Timer.antt =====
-- The alarms of sys/timer.c: the list of sleeping threads, ordered by wake-up time, and the timer
-- interrupt. `rdtime` is an argument; what a call writes to the timer's compare register and to the
-- `sie` register is part of the state. `alarm_sleep` links the alarm in with interrupts off.
pub mod Order
pub mod Wake
mod Tests
use sp25_ece391_group.Base.{
  ℕ, ◌+◌, ◌-◌, ◌*◌, ◌/◌, ◌%◌, ◌^◌, Bool, true, false, Option, none, some, List, [], ◌∷◌, ltb, leb,
  if◌then◌else◌, ◌==◌, ◌&&◌, ◌||◌, not,
}

-- `struct alarm`: `cond` stands for the condition on which its one thread waits.
pub record Alarm : Type 0 where
  pub cond : ℕ
  pub twake : ℕ

abbrev pub uint64_max : ℕ
uint64_max = 2 ^ 64 - 1

abbrev pub timer_freq : ℕ
timer_freq = 10000000

-- The bits of a number.
abbrev pub bit : ℕ → ℕ → Bool
bit mask i = mask / 2 ^ i % 2 == 1

-- RISCV_SCAUSE_STI, which `csrs_sie` and `csrc_sie` take as a mask, and RISCV_SIE_STIE as a bit.
abbrev pub scause_sti : ℕ
scause_sti = 5

abbrev pub stie : ℕ
stie = 5

-- `sleep_list`, the compare register, and the bits of the `sie` register. A bit that is written is taken
-- to be one that can be, also where the register has no such bit.
pub record Timer : Type 0 where
  pub sleep_list : List Alarm
  pub stcmp : ℕ
  pub sie : ℕ → Bool

unfoldable pub timer_init : (ℕ → Bool) → Timer
timer_init sie = record { sleep_list = []; stcmp = uint64_max; sie = sie }

unfoldable pub csrs_sie : ℕ → Timer → Timer
csrs_sie mask t = record t { sie = λ i. t.sie i || bit mask i }

unfoldable pub csrc_sie : ℕ → Timer → Timer
csrc_sie mask t = record t { sie = λ i. t.sie i && not (bit mask i) }

-- What `intrmgr_init` writes to the register: SEIE and STIE.
abbrev pub boot_sie : ℕ → Bool
boot_sie = bit (2 ^ 9 + 2 ^ 5)

unfoldable pub alarm_init : ℕ → ℕ → Alarm
alarm_init cond now = record { cond = cond; twake = now }

unfoldable pub alarm_reset : Alarm → ℕ → Alarm
alarm_reset al now = record al { twake = now }

-- The wake-up time `tcnt` ticks on, which stays at the largest number instead of wrapping.
unfoldable pub later : ℕ → ℕ → ℕ
later twake tcnt = if ltb (uint64_max - twake) tcnt then uint64_max else twake + tcnt

-- What `alarm_sleep` does: it returns at once, its thread waits for the alarm, or it writes through
-- the NULL pointer `prev`.
pub data Slept : Type 0 where
  passed : Alarm → Slept
  sleeping : Alarm → Timer → Slept
  null_write : Slept

-- The link behind `prev`: the flag says whether it is a place of the list or NULL.
unfoldable pub relink : (prev : Bool) → List Alarm → Option (List Alarm)
relink true l = some l
relink false l = none

unfoldable pub keep : Alarm → Option (List Alarm) → Option (List Alarm)
keep iter none = none
keep iter (some l) = some (iter ∷ l)

-- The loop of `alarm_sleep` from `iter` on, and the link that it ends with; `none` is a write through
-- NULL.
unfoldable pub insert_at : Alarm → (prev : Bool) → List Alarm → Option (List Alarm)
unfolding relink keep
insert_at al prev [] = relink prev (al ∷ [])
insert_at al prev (iter ∷ rest) =
    let next = insert_at al true rest in
    if ltb iter.twake al.twake then keep iter next else relink prev (al ∷ iter ∷ rest)

-- The alarm is in the list; then the mask is set in `sie`, and its thread waits.
unfoldable pub wait_for : Alarm → Timer → Option (List Alarm) → Slept
unfolding csrs_sie
wait_for al t none = null_write
wait_for al t (some l) = sleeping al (csrs_sie scause_sti (record t { sleep_list = l }))

-- The three ways to link the alarm in.
unfoldable pub link : Alarm → Timer → List Alarm → Slept
unfolding insert_at wait_for
link al t [] = wait_for al (record t { stcmp = al.twake }) (some (al ∷ []))
link al t (first ∷ rest) =
    if ltb al.twake first.twake
    then wait_for al (record t { stcmp = al.twake }) (some (al ∷ first ∷ rest))
    else wait_for al t (insert_at al false (first ∷ rest))

unfoldable pub alarm_sleep : Alarm → (tcnt now : ℕ) → Timer → Slept
unfolding later link
alarm_sleep al tcnt now t =
    let set = record al { twake = later al.twake tcnt } in
    if ltb set.twake now then passed set else link set t t.sleep_list

-- The products are taken in an unsigned long.
unfoldable pub alarm_sleep_sec : Alarm → (sec now : ℕ) → Timer → Slept
unfolding alarm_sleep
alarm_sleep_sec al sec now t = alarm_sleep al (sec * timer_freq % 2 ^ 64) now t

unfoldable pub alarm_sleep_ms : Alarm → (ms now : ℕ) → Timer → Slept
unfolding alarm_sleep
alarm_sleep_ms al ms now t = alarm_sleep al (ms * (timer_freq / 1000) % 2 ^ 64) now t

unfoldable pub alarm_sleep_us : Alarm → (us now : ℕ) → Timer → Slept
unfolding alarm_sleep
alarm_sleep_us al us now t = alarm_sleep al (us * (timer_freq / 1000 / 1000) % 2 ^ 64) now t

-- `sleep_us` takes the time twice: in `alarm_init`, and in `alarm_sleep`.
unfoldable pub sleep_us : (cond us start now : ℕ) → Timer → Slept
unfolding alarm_init alarm_sleep_us
sleep_us cond us start now t = alarm_sleep_us (alarm_init cond start) us now t

unfoldable pub sleep_ms : (cond ms start now : ℕ) → Timer → Slept
unfolding sleep_us
sleep_ms cond ms start now t = sleep_us cond (1000 * ms % 2 ^ 64) start now t

unfoldable pub sleep_sec : (cond sec start now : ℕ) → Timer → Slept
unfolding sleep_ms
sleep_sec cond sec start now t = sleep_ms cond (1000 * sec % 2 ^ 64) start now t

-- The loop of the timer interrupt: the alarms that it broadcasts, and the list that it leaves.
unfoldable pub wake : ℕ → List Alarm → List Alarm × List Alarm
wake now [] = ([], [])
wake now (head ∷ next) =
    let (woken, left) = wake now next in
    if leb head.twake now then (head ∷ woken, left) else ([], head ∷ next)

-- The compare register and the `sie` register for the list that is left.
unfoldable pub rearm : Timer → List Alarm → Timer
unfolding csrc_sie
rearm t [] = csrc_sie scause_sti (record t { sleep_list = []; stcmp = uint64_max })
rearm t (head ∷ rest) = record t { sleep_list = head ∷ rest; stcmp = head.twake }

unfoldable pub handle_timer_interrupt : ℕ → Timer → List Alarm × Timer
unfolding wake rearm
handle_timer_interrupt now t = let (woken, left) = wake now t.sleep_list in (woken, rearm t left)
