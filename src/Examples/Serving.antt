-- ===== src/Examples/Serving.antt =====
-- The API, the tick and the output file: the properties of api.go, checkAndFireTasks and output.go.
use relay_scheduler.Base.{◌≡◌, ◌+◌, ◌≡◌, refl, ◌≢◌, true, none, some, [], ◌∷◌, ok, lookup, contains}
use relay_scheduler.Clock.{Time, date, day_of}
use relay_scheduler.Text.{split_once, atoi, is_blank}
use relay_scheduler.Schedule.{calculate_next_run, schedule_type, validate_schedule, run_daily}
use relay_scheduler.Schedule.Json.{get_text, is_absent}
use relay_scheduler.Schedule.Wall.{next_daily, parse_time}
use relay_scheduler.Store.{find_task, read_locked}
use relay_scheduler.Store.Calls.{stamp, view}
use relay_scheduler.Store.Refinement.{IsSound}
use relay_scheduler.Output.{
  OpenedFile, IsOutput, read_output_file, read_opened, read_capped, read_output_file-IsOutput,
}
use relay_scheduler.Scheduler.State.{World}
use relay_scheduler.Scheduler.Plan.{check_and_fire, unschedule_task, reschedule_or_disable}
use relay_scheduler.Scheduler.Overlap.{ids}
use relay_scheduler.Scheduler.Tick.{is_firing, check_and_fire_lem}
use relay_scheduler.Api.Validate.{validate_task}
use relay_scheduler.Api.Routes.{Response, deleted, post_task, put_task, delete_task}
use relay_scheduler.Api.Accepted.{IsPlanned, post_task_plans}
use relay_scheduler.Api.Refused.{Refuses, refused_changes_nothing}
use relay_scheduler.Task.{Task}
use relay_scheduler.Api.Removed.{told, is_known, delete_task_lem, delete_task_leaves_scheduled}
use relay_scheduler.Examples.{noon, digest, world}

check_and_fire_lem_example :
    contains "a1" (ids (check_and_fire world).1)
    ≡ is_firing noon [] "a1" (some (record { task = digest; next_run = noon }))
unfolding lookup
check_and_fire_lem_example = check_and_fire_lem world "a1" (refl, refl, tt)

abbrev report : OpenedFile
report = record {
  stat_error = none;
  regular = true;
  mod_time = noon;
  size = 2;
  content = ok (0x6f ∷ 0x6b ∷ []);
}

read_output_file-IsOutput_example : IsOutput report noon (0x6f ∷ 0x6b ∷ [])
unfolding read_output_file read_opened read_capped
read_output_file-IsOutput_example = read_output_file-IsOutput report noon (0x6f ∷ 0x6b ∷ []) refl

unfoldable pub world-IsSound : IsSound world.disk
unfolding read_locked find_task
world-IsSound = record {
  tasks = digest ∷ [];
  readable = refl;
  distinct = (refl, tt);
  writable = refl;
}

pub digest_valid : validate_task world.zone world.now noon digest ≡ ok tt
unfolding validate_task validate_schedule schedule_type get_text calculate_next_run run_daily
    next_daily parse_time split_once atoi is_blank is_absent
digest_valid = refl

pub digest_recurs : schedule_type digest.schedule ≢ ok "on_demand"
unfolding schedule_type get_text
digest_recurs e = cc

post_task_plans_example :
    IsPlanned (post_task world noon "b2" (λ w. w) (ok digest)) (stamp noon "b2" digest)
post_task_plans_example =
    post_task_plans world noon "b2" (λ w. w) digest world-IsSound digest_valid refl digest_recurs

abbrev nameless : Task
nameless = record digest { name = "" }

refused_changes_nothing_example :
    Refuses world noon (ok nameless) (post_task world noon "b2" (λ w. w) (ok nameless))
    × Refuses world noon (ok nameless) (put_task world noon "a1" (λ w. w) (ok nameless))
refused_changes_nothing_example =
    refused_changes_nothing world noon "a1" "b2" (λ w. w) (ok nameless)

delete_task_lem_example :
    (view (delete_task world (λ w. w) "a1").0.disk "a1" ≡ none)
    × ((delete_task world (λ w. w) "a1").0.scheduler.tasks
        ≡ (unschedule_task world "a1").scheduler.tasks)
    × ((delete_task world (λ w. w) "a1").1
        ≡ told (is_known (view (unschedule_task world "a1").disk "a1")))
unfolding unschedule_task
delete_task_lem_example = delete_task_lem world (λ w. w) "a1" world-IsSound

abbrev pub tomorrow : Time
tomorrow = noon + 77_400_000_000_000

abbrev after_delete : World × Response
after_delete = delete_task world (λ w. reschedule_or_disable w digest) "a1"

delete_task_leaves_scheduled_example :
    (after_delete.1 ≡ (200, deleted))
    × (view after_delete.0.disk "a1" ≡ none)
    × (lookup "a1" after_delete.0.scheduler.tasks
        ≡ some (record { task = digest; next_run = tomorrow }))
unfolding read_locked find_task schedule_type get_text calculate_next_run run_daily next_daily
    parse_time split_once atoi date day_of
delete_task_leaves_scheduled_example =
    delete_task_leaves_scheduled world digest tomorrow refl world-IsSound refl refl refl
      digest_recurs refl
