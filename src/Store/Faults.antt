-- ===== src/Store/Faults.antt =====
-- Failed reads and writes: the tasks file never loses its contents.
use relay_scheduler.Base.{
  ap, ◌⊎◌, ◌≡◌, ◌≢◌, String, List, arith, err, select, length, nat_eq, inl, inr, Option-cases,
  Bool-cases, Result-cases, refl,
}
use relay_scheduler.Clock.{Time}
use relay_scheduler.Task.{Task}
use relay_scheduler.Store.{
  Disk, no_fault, StoreError, read_locked, write_locked, commit, find_task, create, update, delete,
  delete_by_project, update_task, set_last_run, set_last_session_id, set_last_terminal_id,
  set_enabled, in_project, FileState, read_failed, unreadable, malformed, parse_failed,
}
use relay_scheduler.Store.Calls.{
  StoreCall, creating, updating, deleting, purging, changing, last_run, session, terminal, enabled,
  call,
}

call_unread : (d : Disk) (c : StoreCall) (e : StoreError) → read_locked d ≡ err e → call d c ≡ d
unfolding create update delete delete_by_project update_task set_last_run set_last_session_id
    set_last_terminal_id set_enabled
call_unread d (creating now id task) e h = rw (h, call, create)
call_unread d (updating now id task) e h = rw (h, call, update)
call_unread d (deleting id) e h = rw (h, call, delete)
call_unread d (purging project) e h = rw (h, call, delete_by_project)
call_unread d (changing now id (last_run x)) e h = rw (h, call, update_task)
call_unread d (changing now id (session x)) e h = rw (h, call, update_task)
call_unread d (changing now id (terminal x)) e h = rw (h, call, update_task)
call_unread d (changing now id (enabled x)) e h = rw (h, call, update_task)

-- A tasks file that is there, and cannot be read or parsed.
pub data IsDamaged : FileState → Type 0 where
  cannot_read : IsDamaged unreadable
  cannot_parse : IsDamaged malformed

damaged_unread :
    (d : Disk) (f : FileState)
    → d.tasks_file ≡ f
    → IsDamaged f
    → (e : StoreError) × (read_locked d ≡ err e)
unfolding read_locked
damaged_unread d f h cannot_read = (read_failed, rw (h, read_locked) refl)
damaged_unread d f h cannot_parse = (parse_failed, rw (h, read_locked) refl)

-- A call on a tasks file that is there, and cannot be read or parsed, writes nothing at all.
call_damaged : (d : Disk) (c : StoreCall) → IsDamaged d.tasks_file → call d c ≡ d
call_damaged d c h =
    let (e, unread) = damaged_unread d d.tasks_file refl h in call_unread d c e unread

write_fails :
    (d : Disk) (ts : List Task)
    → d.fault ≢ no_fault
    → (write_locked d ts).0.tasks_file ≡ d.tasks_file
unfolding write_locked
write_fails d ts h = ground arith

commit_fails {ℓ} :
    {A : Type ℓ} (d : Disk) (ts : List Task) (a : A)
    → d.fault ≢ no_fault
    → (commit d ts a).0.tasks_file ≡ d.tasks_file
unfolding commit
commit_fails d ts a h = ground (arith, write_fails d ts h)

abbrev KeepsFile : Disk → Disk → Type 0
KeepsFile d e = e.tasks_file ≡ d.tasks_file

module _ (d : Disk) (h : d.fault ≢ no_fault) where
  create_fails : (now : Time) (id : String) (task : Task) → KeepsFile d (create d now id task).0
  unfolding create
  create_fails now id task = elim (Result-cases (read_locked d)) [
    | inl (ts, e) ↦ rw (e, create) (commit_fails d _ _ h)
    | inr (x, e) ↦ rw (e, create)
  ]

  update_fails : (now : Time) (id : String) (task : Task) → KeepsFile d (update d now id task).0
  unfolding update
  update_fails now id task = elim (Result-cases (read_locked d)) [
    | inl (ts, e) ↦ elim (Option-cases (find_task id ts)) [
      | inl n ↦ rw (e, update) (rw (n, update))
      | inr (t, f) ↦ rw (e, update) (rw (f, update) (commit_fails d _ _ h))
    ]
    | inr (x, e) ↦ rw (e, update)
  ]

  delete_fails : (id : String) → KeepsFile d (delete d id).0
  unfolding delete
  delete_fails id = elim (Result-cases (read_locked d)) [
    | inl (ts, e) ↦ elim (Option-cases (find_task id ts)) [
      | inl n ↦ rw (e, delete) (rw (n, delete))
      | inr (t, f) ↦ rw (e, delete) (rw (f, delete) (commit_fails d _ _ h))
    ]
    | inr (x, e) ↦ rw (e, delete)
  ]

  purge_fails : (project : String) → KeepsFile d (delete_by_project d project).0
  unfolding delete_by_project
  purge_fails project = elim (Result-cases (read_locked d)) [
    | inl (ts, e) ↦ elim (Bool-cases (nat_eq (length (select (in_project project) ts)) 0)) [
      | inl n ↦ rw (e, delete_by_project) (rw n)
      | inr n ↦ rw (e, delete_by_project) (rw n (commit_fails d _ _ h))
    ]
    | inr (x, e) ↦ rw (e, delete_by_project)
  ]

  update_task_fails :
      (now : Time) (id : String) (f : Task → Task) → KeepsFile d (update_task d now id f)
  unfolding update_task
  update_task_fails now id f = elim (Result-cases (read_locked d)) [
    | inl (ts, e) ↦ elim (Option-cases (find_task id ts)) [
      | inl n ↦ rw (e, update_task) (rw (n, update_task))
      | inr (t, g) ↦ rw (e, update_task) (rw (g, update_task) (write_fails d _ h))
    ]
    | inr (x, e) ↦ rw (e, update_task)
  ]

call_unwritten :
    (d : Disk) (c : StoreCall) → d.fault ≢ no_fault → (call d c).tasks_file ≡ d.tasks_file
unfolding set_last_run set_last_session_id set_last_terminal_id set_enabled
call_unwritten d (creating now id task) h = create_fails d h now id task
call_unwritten d (updating now id task) h = update_fails d h now id task
call_unwritten d (deleting id) h = delete_fails d h id
call_unwritten d (purging project) h = purge_fails d h project
call_unwritten d (changing now id (last_run x)) h = update_task_fails d h now id _
call_unwritten d (changing now id (session x)) h = update_task_fails d h now id _
call_unwritten d (changing now id (terminal x)) h = update_task_fails d h now id _
call_unwritten d (changing now id (enabled x)) h = update_task_fails d h now id _

-- A call whose write fails, in whatever step, or whose tasks file is there and cannot be read or
-- parsed, leaves the tasks file as it was.
pub call_fails :
    (d : Disk) (c : StoreCall)
    → (d.fault ≢ no_fault) ⊎ IsDamaged d.tasks_file
    → (call d c).tasks_file ≡ d.tasks_file
call_fails d c (inl h) = call_unwritten d c h
call_fails d c (inr h) = ap (λ (e : Disk). e.tasks_file) (call_damaged d c h)
