-- ===== src/Api/Routes.antt =====
-- api.go: the handlers of RegisterRoutes. A handler that calls the store and the scheduler in turn
-- gives way to other goroutines in between. The log lines of the handlers are left out.
use relay_scheduler.Base.{
  ℕ, String, Bool, true, false, Option, none, some, List, is_empty, if◌then◌else◌, Result, ok, err,
}
use relay_scheduler.Clock.{Time}
use relay_scheduler.Task.{Task, Execution}
use relay_scheduler.Store
use relay_scheduler.Store.{
  Disk, StoreError, create, update, delete, delete_by_project, list_by_project,
}
use relay_scheduler.History
use relay_scheduler.Scheduler.State.{World, with_disk}
use relay_scheduler.Scheduler.Plan.{
  schedule_task, unschedule_task, unschedule_by_project, run_task_now, RunError, store_failed,
  task_not_found, task_running,
}
use relay_scheduler.Api.Validate.{TaskError, validate_task}

pub data Body : Type 0 where
  bad_json : String → Body
  bad_task : TaskError → Body
  store_error : StoreError → Body
  not_found already_running : Body
  task_list : List Task → Body
  one_task : Task → Body
  deleted started : Body
  deleted_count : ℕ → Body
  history : List Execution → Body

-- The status code and what the body tells.
abbrev pub Response : Type 0
Response = ℕ × Body

-- A task body as json.Decoder gives it; `later` is the second clock reading of the validation.
unfoldable pub decode_task : World → Time → Result String Task → Result Response Task
decode_task w later (err e) = err (400, bad_json e)
decode_task w later (ok task) = elim (validate_task w.zone w.now later task) [
  | err e ↦ err (400, bad_task e)
  | ok _ ↦ ok task
]

abbrev list_tasks : World → String → Result StoreError (List Task)
list_tasks w project =
    if is_empty project then Store.load w.disk else list_by_project w.disk project

abbrev list_answer : Result StoreError (List Task) → Response
list_answer (err e) = (500, store_error e)
list_answer (ok tasks) = (200, task_list tasks)

-- GET /api/tasks.
unfoldable pub get_tasks : World → String → Response
get_tasks w project = list_answer (list_tasks w project)

abbrev pub create_answer :
    World → (World → World) → Disk × Result StoreError Task → World × Response
create_answer w between (d, err e) = (with_disk w d, (500, store_error e))
create_answer w between (d, ok task) =
    (schedule_task (between (with_disk w d)) task, (201, one_task task))

-- POST /api/tasks.
unfoldable pub post_task :
    World → Time → String → (World → World) → Result String Task → World × Response
unfolding decode_task
post_task w later new_id between body = elim (decode_task w later body) [
  | err r ↦ (w, r)
  | ok task ↦ create_answer w between (create w.disk w.now new_id task)
]

abbrev task_answer : Result StoreError (Option Task) → Response
task_answer (err e) = (500, store_error e)
task_answer (ok none) = (404, not_found)
task_answer (ok (some t)) = (200, one_task t)

-- GET /api/tasks/{id}.
unfoldable pub get_task : World → String → Response
get_task w id = task_answer (Store.get w.disk id)

abbrev pub update_answer :
    World → (World → World) → Disk × Result StoreError (Option Task) → World × Response
update_answer w between (d, err e) = (with_disk w d, (500, store_error e))
update_answer w between (d, ok none) = (with_disk w d, (404, not_found))
update_answer w between (d, ok (some task)) =
    (schedule_task (between (with_disk w d)) task, (200, one_task task))

-- PUT /api/tasks/{id}.
unfoldable pub put_task :
    World → Time → String → (World → World) → Result String Task → World × Response
unfolding decode_task
put_task w later id between body = elim (decode_task w later body) [
  | err r ↦ (w, r)
  | ok task ↦ update_answer w between (update w.disk w.now id task)
]

abbrev pub delete_answer : World → Disk × Result StoreError Bool → World × Response
delete_answer w (d, err e) = (with_disk w d, (500, store_error e))
delete_answer w (d, ok false) = (with_disk w d, (404, not_found))
delete_answer w (d, ok true) = (with_disk w d, (200, deleted))

-- DELETE /api/tasks/{id}.
unfoldable pub delete_task : World → (World → World) → String → World × Response
delete_task w between id =
    let cleared = between (unschedule_task w id) in delete_answer cleared (delete cleared.disk id)

abbrev history_answer : World → Result StoreError (Option Task) → Response
history_answer w (err e) = (500, store_error e)
history_answer w (ok none) = (404, not_found)
history_answer w (ok (some t)) = (200, history (History.load w.logs t.project_id t.id))

-- GET /api/tasks/{id}/history.
unfoldable pub get_history : World → String → Response
get_history w id = history_answer w (Store.get w.disk id)

abbrev pub run_answer : Result RunError Task → Response
run_answer (ok task) = (200, started)
run_answer (err task_running) = (409, already_running)
run_answer (err task_not_found) = (404, not_found)
run_answer (err (store_failed e)) = (500, store_error e)

-- POST /api/tasks/{id}/run.
unfoldable pub post_run : World → String → World × Response
post_run w id = let (v, r) = run_task_now w id in (v, run_answer r)

abbrev purge_answer : World → Disk × Result StoreError ℕ → World × Response
purge_answer w (d, err e) = (with_disk w d, (500, store_error e))
purge_answer w (d, ok n) = (with_disk w d, (200, deleted_count n))

-- DELETE /api/tasks/by-project/{projectId}.
unfoldable pub delete_project : World → (World → World) → String → World × Response
delete_project w between project =
    let cleared = between (unschedule_by_project w project) in
    purge_answer cleared (delete_by_project cleared.disk project)
