-- ===== src/Store/Answers.antt =====
-- What the calls on the store answer.
use relay_scheduler.Base.{
  ◌≡◌, sym, ◌∙◌, String, none, some, List, arith, ok, eq_refl, inl, inr, Option-cases,
}
use relay_scheduler.Clock.{Time}
use relay_scheduler.Clock.Rfc3339.{format}
use relay_scheduler.Task.{Task}
use relay_scheduler.Store.{
  Disk, no_fault, write_locked, commit, find_task, get, create, update, merge,
}
use relay_scheduler.Store.Calls.{view, stamp, on_task}
use relay_scheduler.Store.Refinement.{
  IsSound, create-IsSound, update-IsSound, view-create, view-update,
}

-- Reading one task looks the id up in the map.
pub get-view : (d : Disk) (j : String) → IsSound d → get d j ≡ ok (view d j)
unfolding get
get-view d j s = rw (s.readable, get)

pub commit_answers {ℓ} :
    {A : Type ℓ} (d : Disk) (ts : List Task) (a : A) → d.fault ≡ no_fault → (commit d ts a).1 ≡ ok a
unfolding commit write_locked
commit_answers d ts a h = ground arith

pub create_answers :
    (d : Disk) (now : Time) (id : String) (task : Task)
    → IsSound d
    → (create d now id task).1 ≡ ok (stamp now id task)
unfolding create
create_answers d now id task s = rw (s.readable, create) (commit_answers d _ _ s.writable)

-- A created task is answered with its new id and both time stamps, and is what a later read of that
-- id gives.
pub get-create :
    (d : Disk) (now : Time) (id : String) (task : Task)
    → IsSound d
    → view d id ≡ none
    → ((create d now id task).1 ≡ ok (stamp now id task))
      × (get (create d now id task).0 id ≡ ok (some (stamp now id task)))
get-create d now id task s f = (
  create_answers d now id task s,
  get-view _ id (create-IsSound d s now id task f)
      ∙ rw (view-create d s now id task id f, eq_refl id),
)

pub update_answers :
    (d : Disk) (now : Time) (id : String) (new : Task)
    → IsSound d
    → (update d now id new).1 ≡ ok (on_task (merge now id new) (view d id))
unfolding update
update_answers d now id new s = elim (Option-cases (find_task id s.tasks)) [
  | inl n ↦ rw (s.readable, update) (rw (n, update))
  | inr (t, f) ↦ rw (s.readable, update) (rw (f, update) (commit_answers d _ _ s.writable))
]

-- An update answers with what a later read of the id gives: nothing where the id is unknown.
pub get-update :
    (d : Disk) (now : Time) (id : String) (new : Task)
    → IsSound d
    → get (update d now id new).0 id ≡ (update d now id new).1
get-update d now id new s =
    get-view _ id (update-IsSound d s now id new)
    ∙ rw (view-update d s now id new id, eq_refl id) (sym (update_answers d now id new s))

-- A definition that carries no run state, as clients send it, keeps the stored task's run state and
-- creation time; all else but the id and the update time is the definition's.
pub update_keeps_run_state :
    (d : Disk) (now : Time) (id : String) (new t : Task)
    → IsSound d
    → view d id ≡ some t
    → new.last_run ≡ ""
    → new.last_status ≡ ""
    → new.last_session_id ≡ ""
    → new.last_terminal_id ≡ ""
    → view (update d now id new).0 id
      ≡ some (record new {
        id = id;
        created_at = t.created_at;
        updated_at = format now;
        last_run = t.last_run;
        last_status = t.last_status;
        last_session_id = t.last_session_id;
        last_terminal_id = t.last_terminal_id;
      })
unfolding merge
update_keeps_run_state d now id new t s v e f g h =
    view-update d s now id new id ∙ rw (eq_refl id, v, e, f, g, h)
