-- ===== src/Examples/Storing.antt =====
-- The stores: the properties of store.go and logstore.go on one task.
use relay_scheduler.Base.{inl, ◌≡◌, refl, some, [], ◌∷◌, take, ok, lookup}
use relay_scheduler.Clock.Rfc3339.{format}
use relay_scheduler.Store.{find_task, Disk, tmp_fault, read_locked, create, update, get}
use relay_scheduler.Store.Calls.{call, creating, deleting, purging, view, promised, stamp}
use relay_scheduler.Store.Refinement.{IsSound, view-call, call-IsSound}
use relay_scheduler.Store.Faults.{call_fails}
use relay_scheduler.Store.Answers.{get-create, update_keeps_run_state}
use relay_scheduler.History
use relay_scheduler.History.{max_log_entries, log_path}
use relay_scheduler.History.Newest.{load-log_all, log_all}
use relay_scheduler.Examples.{noon, digest, disk, finished, world}

disk-IsSound : IsSound disk
unfolding read_locked find_task
disk-IsSound = record {
  tasks = digest ∷ [];
  readable = refl;
  distinct = (refl, tt);
  writable = refl;
}

view-call_example :
    view (call disk (creating noon "b2" digest)) "a1"
    ≡ promised (view disk) (creating noon "b2" digest) "a1"
unfolding read_locked find_task
view-call_example = view-call disk (creating noon "b2" digest) "a1" disk-IsSound refl

call-IsSound_example : IsSound (call disk (deleting "a1"))
call-IsSound_example = call-IsSound disk (deleting "a1") disk-IsSound tt

abbrev full_disk : Disk
full_disk = record disk { fault = tmp_fault }

call_fails_example : (call full_disk (purging "p1")).tasks_file ≡ full_disk.tasks_file
call_fails_example = call_fails full_disk (purging "p1") (inl (λ e. cc))

get-create_example :
    ((create disk noon "b2" digest).1 ≡ ok (stamp noon "b2" digest))
    × (get (create disk noon "b2" digest).0 "b2" ≡ ok (some (stamp noon "b2" digest)))
unfolding read_locked find_task
get-create_example = get-create disk noon "b2" digest disk-IsSound refl

update_keeps_run_state_example :
    view (update disk noon "a1" (record digest { name = "post" })).0 "a1"
    ≡ some (record digest { name = "post"; updated_at = format noon })
unfolding read_locked find_task
update_keeps_run_state_example =
    update_keeps_run_state disk noon "a1" (record digest { name = "post" }) digest disk-IsSound refl
      refl refl refl refl

load-log_all_example :
    History.load (log_all world.logs "p1" "a1" (finished ∷ finished ∷ [])) "p1" "a1"
    ≡ take max_log_entries (finished ∷ finished ∷ [])
unfolding History.load lookup
load-log_all_example = load-log_all world.logs "p1" "a1" finished (finished ∷ []) refl
