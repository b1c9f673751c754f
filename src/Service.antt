-- ===== src/Service.antt =====
-- The running daemon: the handlers of api.go, the tick of scheduler.go, and the runs with their
-- writes to the store, as steps on one state, one after the other in any order. Each step is a call as
-- a whole, also a handler and the end of a run, which the program runs as a call of the store and then
-- one of the scheduler: the steps are the runs of the program in which such calls do not overlap. What
-- happens where something comes in between is in Api.
pub mod Plans
pub mod Skipped
pub mod Held
pub mod Placed
pub mod Settled
pub mod Kept
pub mod Loaded
use relay_scheduler.Base.{
  String, ◌≡◌, Bool, true, false, none, List, Result, contains, discard, adjoin,
}
use relay_scheduler.Clock.{Time}
use relay_scheduler.Task.{Task}
use relay_scheduler.Store.Calls.{Change, enabled, change, view}
use relay_scheduler.Scheduler.State.{World, with_disk, with_running}
use relay_scheduler.Scheduler.Plan.{check_and_fire, run_task_now, reschedule_or_disable}
use relay_scheduler.Api.Routes.{post_task, put_task, delete_task}

-- The world, and the ids of the runs that have rescheduled their task and have yet to leave the
-- running set.
pub record State : Type 0 where
  pub world : World
  pub settled : List String

-- What a run writes to the store.
abbrev pub is_note : Change → Bool
is_note (enabled on) = false
is_note _ = true

abbrev pub undisturbed : World → World
undisturbed w = w

abbrev pub ticked : State → State
ticked s = record s { world = (check_and_fire s.world).0 }

abbrev pub ran_now : State → String → State
ran_now s id = record s { world = (run_task_now s.world id).0 }

abbrev pub noted : State → Time → String → Change → State
noted s now id c = record s { world = with_disk s.world (change s.world.disk now id c) }

-- The last call of executeTask, and its deferred one.
abbrev pub settles_run : State → Task → State
settles_run s task = record {
  world = reschedule_or_disable s.world task;
  settled = adjoin task.id s.settled;
}

abbrev pub left_run : State → String → State
left_run s id = record {
  world = with_running s.world (discard id s.world.scheduler.running);
  settled = discard id s.settled;
}

abbrev pub posted : State → Time → String → Result String Task → State
posted s later id body = record s { world = (post_task s.world later id undisturbed body).0 }

abbrev pub updated : State → Time → String → Result String Task → State
updated s later id body = record s { world = (put_task s.world later id undisturbed body).0 }

abbrev pub deleted_task : State → String → State
deleted_task s id = record s { world = (delete_task s.world undisturbed id).0 }

abbrev pub at_time : State → Time → State
at_time s now = record s { world = record (s.world) { now = now } }

-- A new id is not in use. A run settles while it is running, and leaves once it has settled.
pub data Step : State → State → Type 0 where
  ticks : (s : State) → Step s (ticked s)
  runs_now : (s : State) (id : String) → Step s (ran_now s id)
  notes :
      (s : State) (now : Time) (id : String) (c : Change)
      → is_note c ≡ true
      → Step s (noted s now id c)
  settles :
      (s : State) (task : Task)
      → contains task.id s.world.scheduler.running ≡ true
      → Step s (settles_run s task)
  leaves : (s : State) (id : String) → contains id s.settled ≡ true → Step s (left_run s id)
  posts :
      (s : State) (later : Time) (id : String) (body : Result String Task)
      → view s.world.disk id ≡ none
      → Step s (posted s later id body)
  puts :
      (s : State) (later : Time) (id : String) (body : Result String Task)
      → Step s (updated s later id body)
  deletes : (s : State) (id : String) → Step s (deleted_task s id)
  waits : (s : State) (now : Time) → Step s (at_time s now)

pub data Reach (s : State) : State → Type 0 where
  here : Reach s s
  next : {t u : State} → Reach s t → Step t u → Reach s u
