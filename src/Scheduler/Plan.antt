-- ===== src/Scheduler/Plan.antt =====
-- scheduler.go: when tasks run. Each function that holds the mutex throughout is one step; a step
-- reads one clock.
use relay_scheduler.Base.{
  ℕ, ◌-◌, ◌*◌, String, Bool, true, false, not, ◌&&◌, Option, none, some, List, [], ◌∷◌, ltb, ◌==◌,
  if◌then◌else◌, select, Result, ok, err, remove, insert, contains, adjoin,
}
use relay_scheduler.Clock.{Time, minute}
use relay_scheduler.Schedule.Json.{RawSchedule}
use relay_scheduler.Schedule.{schedule_type, calculate_next_run}
use relay_scheduler.Schedule.Wall.{Checked}
use relay_scheduler.Task.{Task}
use relay_scheduler.Store
use relay_scheduler.Store.{StoreError, set_last_run, set_enabled}
use relay_scheduler.Scheduler.State.{ScheduledTask, World, with_tasks, with_running, with_disk}

abbrev or_blank : Checked String → String
or_blank (ok t) = t
or_blank (err e) = ""

-- `st, _ := ScheduleType(task.Schedule)`.
abbrev pub type_of : RawSchedule → String
type_of raw = or_blank (schedule_type raw)

abbrev plan : World → Task → Checked Time → World
plan w task (err e) = w
plan w task (ok t) =
    with_tasks w (insert task.id (record { task = task; next_run = t }) w.scheduler.tasks)

unfoldable pub schedule_task_locked : World → Task → World
schedule_task_locked w task =
    if type_of task.schedule == "on_demand"
    then w
    else plan w task (calculate_next_run w.zone w.now task.schedule)

unfoldable pub schedule_task : World → Task → World
unfolding schedule_task_locked
schedule_task w task =
    let cleared = with_tasks w (remove task.id w.scheduler.tasks) in
    if task.enabled then schedule_task_locked cleared task else cleared

unfoldable pub unschedule_task : World → String → World
unschedule_task w id = with_tasks w (remove id w.scheduler.tasks)

abbrev scheduled_in : String → String × ScheduledTask → Bool
scheduled_in project (id, st) = st.task.project_id == project

unfoldable pub unschedule_by_project : World → String → World
unschedule_by_project w project =
    with_tasks w (select (λ e. not (scheduled_in project e)) w.scheduler.tasks)

-- One task of LoadAllTasks; the status reset does not change the task at hand.
unfoldable pub load_task : World → Task → World
unfolding schedule_task_locked
load_task w task =
    let reset =
      if task.last_status == "running"
      then with_disk w (set_last_run w.disk w.now task.id "error")
      else w in
    if task.enabled then schedule_task_locked reset task else reset

unfoldable pub load_tasks : World → List Task → World
unfolding load_task
load_tasks w [] = w
load_tasks w (t ∷ ts) = load_tasks (load_task w t) ts

unfoldable pub load_all_tasks : World → World × Option StoreError
unfolding load_tasks
load_all_tasks w = elim (Store.load w.disk) [
  | err e ↦ (w, some e)
  | ok tasks ↦ (load_tasks (with_tasks w []) tasks, none)
]

abbrev pub missed_threshold : ℕ
missed_threshold = 10 * minute

pub data Due : Type 0 where
  not_due busy skip fire : Due

-- What a tick at a time does with a scheduled task.
unfoldable pub classify : Time → List String → ScheduledTask → Due
classify now running st =
    if ltb now st.next_run
    then not_due
    else if contains st.task.id running
    then busy
    else if not st.task.catch_up && ltb missed_threshold (now - st.next_run)
    then skip
    else fire

abbrev is_skip : Due → Bool
is_skip skip = true
is_skip _ = false

abbrev pub is_fire : Due → Bool
is_fire fire = true
is_fire _ = false

-- The tasks that the loop of checkAndFireTasks collects.
unfoldable pub to_skip : Time → List String → List (String × ScheduledTask) → List Task
unfolding classify
to_skip now running [] = []
to_skip now running ((id, st) ∷ rest) =
    if is_skip (classify now running st)
    then st.task ∷ to_skip now running rest
    else to_skip now running rest

unfoldable pub to_fire : Time → List String → List (String × ScheduledTask) → List Task
unfolding classify
to_fire now running [] = []
to_fire now running ((id, st) ∷ rest) =
    if is_fire (classify now running st)
    then st.task ∷ to_fire now running rest
    else to_fire now running rest

unfoldable pub remove_tasks :
    List Task → List (String × ScheduledTask) → List (String × ScheduledTask)
remove_tasks [] m = m
remove_tasks (t ∷ ts) m = remove_tasks ts (remove t.id m)

-- A skipped one-shot task is disabled, any other gets its next run.
unfoldable pub skip_task : World → Task → World
unfolding schedule_task_locked
skip_task w task =
    if type_of task.schedule == "once"
    then with_disk w (set_enabled w.disk w.now task.id false)
    else schedule_task_locked w task

unfoldable pub skip_tasks : World → List Task → World
unfolding skip_task
skip_tasks w [] = w
skip_tasks w (t ∷ ts) = skip_tasks (skip_task w t) ts

unfoldable pub mark_running : List Task → List String → List String
mark_running [] running = running
mark_running (t ∷ ts) running = mark_running ts (adjoin t.id running)

-- checkAndFireTasks up to the unlock, with the tasks that it then starts runs of.
unfoldable pub check_and_fire : World → World × List Task
unfolding to_skip to_fire remove_tasks skip_tasks mark_running
check_and_fire w =
    let skipped = to_skip w.now w.scheduler.running w.scheduler.tasks in
    let fired = to_fire w.now w.scheduler.running w.scheduler.tasks in
    let left = remove_tasks skipped (remove_tasks fired w.scheduler.tasks) in
    let w' = skip_tasks (with_tasks w left) skipped in
    (with_running w' (mark_running fired w'.scheduler.running), fired)

pub data RunError : Type 0 where
  store_failed : StoreError → RunError
  task_not_found task_running : RunError

abbrev pub start_run : World → String → Option Task → World × Result RunError Task
start_run w id none = (w, err task_not_found)
start_run w id (some task) =
    if contains id w.scheduler.running
    then (w, err task_running)
    else (with_running w (adjoin id w.scheduler.running), ok task)

abbrev pub run_found :
    World → String → Result StoreError (Option Task) → World × Result RunError Task
run_found w id (err e) = (w, err (store_failed e))
run_found w id (ok found) = start_run w id found

-- RunTaskNow, with the task that it starts a run of.
unfoldable pub run_task_now : World → String → World × Result RunError Task
run_task_now w id = run_found w id (Store.get w.disk id)

unfoldable pub stop : World → World
stop w = record w { scheduler = record { tasks = []; running = []; stopped = true } }

-- rescheduleOrDisable for an enabled task that the store has just given: other goroutines come in
-- after that read, and between the write to the store and the lock of the scheduler.
abbrev pub reschedule_split : (World → World) → (World → World) → World → Task → World
reschedule_split after_get after_set w task =
    let st = type_of task.schedule in
    let u = after_get w in
    if st == "once"
    then (let v = after_set (with_disk u (set_enabled u.disk u.now task.id false)) in
        with_tasks v (remove task.id v.scheduler.tasks))
    else if st == "on_demand"
    then u
    else if u.scheduler.stopped
    then u
    else schedule_task_locked u task

-- The same where nothing comes in.
unfoldable pub reschedule : World → Task → World
reschedule w task = reschedule_split (λ u. u) (λ u. u) w task

abbrev pub reschedule_found : World → Option Task → World
reschedule_found w none = w
reschedule_found w (some current) = if current.enabled then reschedule w current else w

-- rescheduleOrDisable, of the task as the store has it now, as one step that nothing comes in
-- between of.
unfoldable pub reschedule_or_disable : World → Task → World
reschedule_or_disable w task = elim (Store.get w.disk task.id) [
  | err e ↦ w
  | ok found ↦ reschedule_found w found
]

abbrev split_found : (World → World) → (World → World) → World → Option Task → World
split_found after_get after_set w none = after_get w
split_found after_get after_set w (some current) =
    if current.enabled then reschedule_split after_get after_set w current else after_get w

-- rescheduleOrDisable with what other goroutines do in the meantime.
unfoldable pub interrupted_end : (World → World) → (World → World) → World → Task → World
interrupted_end after_get after_set w task = elim (Store.get w.disk task.id) [
  | err e ↦ after_get w
  | ok found ↦ split_found after_get after_set w found
]
