-- ===== src/Store/Refinement.antt =====
-- The file store implements a map from ids to tasks.
use relay_scheduler.Base.{
  ap, ◌≡◌, refl, sym, String, Bool, false, not, Option, none, some, List, [], ◌∷◌, ◌++◌, arith,
  Result, ok, if◌then◌else◌, ◌==◌, eq_iff, select, length, nat_eq, ◌⊎◌, inl, inr, Option-cases,
  Bool-cases, ◌∙◌,
}
use relay_scheduler.Clock.{Time}
use relay_scheduler.Clock.Rfc3339.{format}
use relay_scheduler.Task.{Task}
use relay_scheduler.Store.{
  Disk, StoreError, no_fault, read_locked, write_locked, commit, find_task, replace_task, drop_task,
  in_project, create, update, delete, delete_by_project, merge, update_task, set_last_run,
  set_last_session_id, set_last_terminal_id, set_enabled,
}
use relay_scheduler.Store.Lists.{
  Distinct, find_task_id, find_task-replace, find_task-append, find_task-drop, find_task-outside,
  replace-Distinct, append-Distinct, drop-Distinct, outside-Distinct, outside, none_in_project,
}
use relay_scheduler.Store.Calls.{
  StoreCall, creating, updating, deleting, purging, changing, last_run, session, terminal, enabled,
  call, view, stamp, promised, IsFresh, on_task,
}

-- The tasks file can be read, and written, and its ids are distinct.
pub record IsSound (d : Disk) : Type 0 where
  pub tasks : List Task
  pub readable : read_locked d ≡ ok tasks
  pub distinct : Distinct tasks
  pub writable : d.fault ≡ no_fault

-- What a call leaves in the file.
record Leaves (d : Disk) (ts : List Task) : Type 0 where
  reads : read_locked d ≡ ok ts
  writes : d.fault ≡ no_fault

Leaves-IsSound : {d : Disk} {ts : List Task} → Leaves d ts → Distinct ts → IsSound d
Leaves-IsSound {ts = ts} l u = record {
  tasks = ts;
  readable = l.reads;
  distinct = u;
  writable = l.writes;
}

view-Leaves : {d : Disk} {ts : List Task} (j : String) → Leaves d ts → view d j ≡ find_task j ts
view-Leaves j l = rw (l.reads)

write-Leaves : (d : Disk) (ts : List Task) → d.fault ≡ no_fault → Leaves (write_locked d ts).0 ts
unfolding write_locked read_locked
write-Leaves d ts h = ground arith

commit-Leaves {ℓ} :
    {A : Type ℓ} (d : Disk) (ts : List Task) (a : A)
    → d.fault ≡ no_fault
    → Leaves (commit d ts a).0 ts
unfolding commit read_locked
commit-Leaves d ts a h = ground arith

module _ (d : Disk) (s : IsSound d) where
  here : Leaves d s.tasks
  here = record { reads = s.readable; writes = s.writable }

  create-Leaves :
      (now : Time) (id : String) (task : Task)
      → Leaves (create d now id task).0 (s.tasks ++ stamp now id task ∷ [])
  unfolding create
  create-Leaves now id task = rw (s.readable, create) (commit-Leaves d _ _ s.writable)

  update-Leaves :
      (now : Time) (id : String) (new : Task)
      → ((find_task id s.tasks ≡ none) × (update d now id new ≡ (d, ok none)))
        ⊎ ((t : Task) × (find_task id s.tasks ≡ some t)
            × Leaves (update d now id new).0 (replace_task id (merge now id new t) s.tasks))
  unfolding update
  update-Leaves now id new = elim (Option-cases (find_task id s.tasks)) [
    | inl e ↦ inl (e, rw (s.readable, update) (rw (e, update)))
    | inr (t, e) ↦
        inr (t, e, rw (s.readable, update) (rw (e, update) (commit-Leaves d _ _ s.writable)))
  ]

  update_task-Leaves :
      (now : Time) (id : String) (f : Task → Task)
      → ((find_task id s.tasks ≡ none) × (update_task d now id f ≡ d))
        ⊎ ((t : Task) × (find_task id s.tasks ≡ some t)
            × Leaves
                (update_task d now id f)
                (replace_task id (record (f t) { updated_at = format now }) s.tasks))
  unfolding update_task
  update_task-Leaves now id f = elim (Option-cases (find_task id s.tasks)) [
    | inl e ↦ inl (e, rw (s.readable, update_task) (rw (e, update_task)))
    | inr (t, e) ↦
        inr (t, e, rw (s.readable, update_task) (rw (e, update_task) (write-Leaves d _ s.writable)))
  ]

  delete-Leaves :
      (id : String)
      → ((find_task id s.tasks ≡ none) × (delete d id ≡ (d, ok false)))
        ⊎ ((t : Task) × (find_task id s.tasks ≡ some t)
            × Leaves (delete d id).0 (drop_task id s.tasks))
  unfolding delete
  delete-Leaves id = elim (Option-cases (find_task id s.tasks)) [
    | inl e ↦ inl (e, rw (s.readable, delete) (rw (e, delete)))
    | inr (t, e) ↦
        inr (t, e, rw (s.readable, delete) (rw (e, delete) (commit-Leaves d _ _ s.writable)))
  ]

  purge-Leaves :
      (project : String)
      → Leaves (delete_by_project d project).0 (select (λ t. not (in_project project t)) s.tasks)
  unfolding delete_by_project
  purge-Leaves project =
      rw (s.readable, delete_by_project)
        (elim (Bool-cases (nat_eq (length (select (in_project project) s.tasks)) 0)) [
          | inl e ↦ rw e (rw (none_in_project project s.tasks (ground arith)) here)
          | inr e ↦ rw e (commit-Leaves d _ _ s.writable)
        ])

  pub create-IsSound :
      (now : Time) (id : String) (task : Task) → view d id ≡ none → IsSound (create d now id task).0
  create-IsSound now id task f =
      Leaves-IsSound (create-Leaves now id task)
        (append-Distinct _ s.tasks (sym (view-Leaves id here) ∙ f) s.distinct)

  pub update-IsSound : (now : Time) (id : String) (new : Task) → IsSound (update d now id new).0
  update-IsSound now id new = elim (update-Leaves now id new) [
    | inl (_, e) ↦ rw e s
    | inr (t, e, l) ↦
        Leaves-IsSound l (replace-Distinct id _ s.tasks (unfold merge in refl) s.distinct)
  ]

  pub delete-IsSound : (id : String) → IsSound (delete d id).0
  delete-IsSound id = elim (delete-Leaves id) [
    | inl (_, e) ↦ rw e s
    | inr (t, e, l) ↦ Leaves-IsSound l (drop-Distinct id s.tasks s.distinct)
  ]

  purge-IsSound : (project : String) → IsSound (delete_by_project d project).0
  purge-IsSound project =
      Leaves-IsSound (purge-Leaves project) (outside-Distinct project s.tasks s.distinct)

  pub update_task-IsSound :
      (now : Time) (id : String) (f : Task → Task)
      → ((t : Task) → (f t).id ≡ t.id)
      → IsSound (update_task d now id f)
  update_task-IsSound now id f same = elim (update_task-Leaves now id f) [
    | inl (_, e) ↦ rw e s
    | inr (t, e, l) ↦
        Leaves-IsSound l
          (replace-Distinct id _ s.tasks (same t ∙ find_task_id id s.tasks t e) s.distinct)
  ]

  pub view-create :
      (now : Time) (id : String) (task : Task) (j : String)
      → view d id ≡ none
      → view (create d now id task).0 j ≡ (if id == j then some (stamp now id task) else view d j)
  view-create now id task j f =
      view-Leaves j (create-Leaves now id task)
      ∙ find_task-append j (stamp now id task) s.tasks
      ∙ ground (arith, eq_iff id j, view-Leaves j here, view-Leaves id here)

  view-replaced :
      (d' : Disk) (id j : String) (t : Task) (f : Task → Task)
      → find_task id s.tasks ≡ some t
      → (f t).id ≡ id
      → Leaves d' (replace_task id (f t) s.tasks)
      → view d' j ≡ (if id == j then on_task f (view d id) else view d j)
  view-replaced d' id j t f e same l =
      view-Leaves j l
      ∙ find_task-replace id j (f t) s.tasks same
      ∙ rw (view-Leaves id here, view-Leaves j here, e)

  view-unchanged :
      (id j : String) (f : Task → Task)
      → find_task id s.tasks ≡ none
      → view d j ≡ (if id == j then on_task f (view d id) else view d j)
  view-unchanged id j f e = elim (Bool-cases (id == j)) [
    | inl same ↦
        rw (same, view-Leaves id here, e) (view-Leaves j here ∙ rw (← (eq_iff id j).0 same) e)
    | inr other ↦ rw other
  ]

  pub view-update :
      (now : Time) (id : String) (new : Task) (j : String)
      → view (update d now id new).0 j
        ≡ (if id == j then on_task (merge now id new) (view d id) else view d j)
  view-update now id new j = elim (update-Leaves now id new) [
    | inl (n, e) ↦
        ap (λ (r : Disk × Result StoreError (Option Task)). view r.0 j) e
        ∙ view-unchanged id j (merge now id new) n
    | inr (t, e, l) ↦ view-replaced _ id j t (merge now id new) e (unfold merge in refl) l
  ]

  pub view-update_task :
      (now : Time) (id : String) (f : Task → Task) (j : String)
      → ((t : Task) → (f t).id ≡ t.id)
      → view (update_task d now id f) j ≡ (
          if id == j
          then on_task (λ t. record (f t) { updated_at = format now }) (view d id)
          else view d j)
  view-update_task now id f j same = elim (update_task-Leaves now id f) [
    | inl (n, e) ↦
        ap (λ (r : Disk). view r j) e
        ∙ view-unchanged id j (λ t. record (f t) { updated_at = format now }) n
    | inr (t, e, l) ↦
        view-replaced _ id j t (λ x. record (f x) { updated_at = format now }) e
          (same t ∙ find_task_id id s.tasks t e) l
  ]

  pub view-delete : (id j : String) → view (delete d id).0 j ≡ (if id == j then none else view d j)
  view-delete id j = elim (delete-Leaves id) [
    | inl (n, e) ↦
        ap (λ (r : Disk × Result StoreError Bool). view r.0 j) e
        ∙ ground (arith, eq_iff id j, view-Leaves j here, view-Leaves id here)
    | inr (t, e, l) ↦
        view-Leaves j l ∙ find_task-drop id j s.tasks s.distinct ∙ rw (view-Leaves j here)
  ]

  view-purge :
      (project j : String) → view (delete_by_project d project).0 j ≡ outside project (view d j)
  view-purge project j =
      view-Leaves j (purge-Leaves project)
      ∙ find_task-outside project j s.tasks s.distinct
      ∙ rw (view-Leaves j here)

-- Every call on the store keeps it readable and writable, and its ids distinct.
pub call-IsSound : (d : Disk) (c : StoreCall) → IsSound d → IsFresh (view d) c → IsSound (call d c)
unfolding set_last_run set_last_session_id set_last_terminal_id set_enabled
call-IsSound d (creating now id task) s f = create-IsSound d s now id task f
call-IsSound d (updating now id task) s f = update-IsSound d s now id task
call-IsSound d (deleting id) s f = delete-IsSound d s id
call-IsSound d (purging project) s f = purge-IsSound d s project
call-IsSound d (changing now id (last_run x)) s f = update_task-IsSound d s now id _ (λ t. refl)
call-IsSound d (changing now id (session x)) s f = update_task-IsSound d s now id _ (λ t. refl)
call-IsSound d (changing now id (terminal x)) s f = update_task-IsSound d s now id _ (λ t. refl)
call-IsSound d (changing now id (enabled x)) s f = update_task-IsSound d s now id _ (λ t. refl)

-- Every call on the store has the effect on the map from ids to tasks that it promises, at every
-- id, and so leaves all other tasks as they were.
pub view-call :
    (d : Disk) (c : StoreCall) (j : String)
    → IsSound d
    → IsFresh (view d) c
    → view (call d c) j ≡ promised (view d) c j
unfolding set_last_run set_last_session_id set_last_terminal_id set_enabled
view-call d (creating now id task) j s f = view-create d s now id task j f
view-call d (updating now id task) j s f = view-update d s now id task j
view-call d (deleting id) j s f = view-delete d s id j
view-call d (purging project) j s f = view-purge d s project j
view-call d (changing now id (last_run x)) j s f = view-update_task d s now id _ j (λ t. refl)
view-call d (changing now id (session x)) j s f = view-update_task d s now id _ j (λ t. refl)
view-call d (changing now id (terminal x)) j s f = view-update_task d s now id _ j (λ t. refl)
view-call d (changing now id (enabled x)) j s f = view-update_task d s now id _ j (λ t. refl)
