-- ===== src/Examples/Service.antt =====
-- The running daemon: the properties of the handlers, the tick and the runs together.
use relay_scheduler.Base.{refl, lookup, insert, contains, adjoin}
use relay_scheduler.Clock.{date, day_of}
use relay_scheduler.Text.{split_once, atoi}
use relay_scheduler.Schedule.{calculate_next_run, schedule_type, run_daily}
use relay_scheduler.Schedule.Json.{get_text}
use relay_scheduler.Schedule.Wall.{next_daily, parse_time}
use relay_scheduler.Store.{read_locked, load, find_task}
use relay_scheduler.Store
use relay_scheduler.Scheduler.Plan.{
  check_and_fire, load_all_tasks, reschedule_or_disable, reschedule,
}
use relay_scheduler.Service.{
  State, Reach, here, next, ticks, settles, waits, ticked, at_time, settles_run,
}
use relay_scheduler.Service.Held.{IsHeld}
use relay_scheduler.Service.Loaded.{IsReady, started, no_task_is_forgotten}
use relay_scheduler.Service.Placed.{valid-Plannable}
use relay_scheduler.Examples.{noon, digest, world}
use relay_scheduler.Examples.Serving.{world-IsSound, digest_valid, digest_recurs, tomorrow}

world-IsReady : IsReady world
unfolding world-IsSound
world-IsReady = record {
  sound = world-IsSound;
  going = refl;
  valid = (valid-Plannable world noon digest digest_valid, tt);
}

abbrev next_day : State
next_day = at_time (started world) tomorrow

-- The task fires the day after, and its run ends.
abbrev run_over : State
run_over = settles_run (ticked next_day) digest

steps : Reach (started world) run_over
unfolding load_all_tasks load check_and_fire read_locked find_task schedule_type get_text
    calculate_next_run run_daily next_daily parse_time split_once atoi date day_of contains lookup
    insert adjoin
steps =
    next (next (next here (waits (started world) tomorrow)) (ticks next_day))
      (settles (ticked next_day) digest refl)

no_task_is_forgotten_example : IsHeld run_over "a1"
unfolding load_all_tasks load check_and_fire read_locked find_task schedule_type get_text
    calculate_next_run run_daily next_daily parse_time split_once atoi date day_of contains lookup
    reschedule_or_disable Store.get insert reschedule
no_task_is_forgotten_example =
    no_task_is_forgotten world run_over world-IsReady steps "a1" digest refl (refl, digest_recurs)
