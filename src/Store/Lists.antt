-- ===== src/Store/Lists.antt =====
-- The loops of store.go over the tasks: what each leaves to be found, and that ids stay distinct.
use relay_scheduler.Base.{
  ◌≡◌, refl, String, not, Option, none, some, List, [], ◌∷◌, ◌++◌, arith, if◌then◌else◌, ◌==◌,
  eq_iff, select, length,
}
use relay_scheduler.Task.{Task}
use relay_scheduler.Store.{find_task, replace_task, drop_task, in_project}

-- No two tasks have the same id.
abbrev pub Distinct : List Task → Type 0
Distinct [] = Unit {0}
Distinct (t ∷ ts) = (find_task t.id ts ≡ none) × Distinct ts

abbrev pub overwrite : Task → Option Task → Option Task
overwrite new none = none
overwrite new (some t) = some new

abbrev pub or_else : Option Task → Option Task → Option Task
or_else none o = o
or_else (some t) o = some t

abbrev pub outside : String → Option Task → Option Task
outside project none = none
outside project (some t) = if in_project project t then none else some t

pub find_task_id : (j : String) (ts : List Task) (t : Task) → find_task j ts ≡ some t → t.id ≡ j
unfolding find_task
find_task_id j [] t h = cc
find_task_id j (x ∷ ts) t h = ground (arith, eq_iff x.id j, find_task_id j ts t)

pub find_task-replace :
    (id j : String) (new : Task) (ts : List Task)
    → new.id ≡ id
    → find_task j (replace_task id new ts)
      ≡ (if id == j then overwrite new (find_task id ts) else find_task j ts)
unfolding find_task replace_task
find_task-replace id j new [] e = ground arith
find_task-replace id j new (t ∷ ts) e = ground (
  arith,
  eq_iff id j,
  eq_iff t.id id,
  eq_iff t.id j,
  eq_iff new.id j,
  find_task-replace id j new ts e,
)

pub find_task-append :
    (j : String) (t : Task) (ts : List Task)
    → find_task j (ts ++ t ∷ []) ≡ or_else (find_task j ts) (if t.id == j then some t else none)
unfolding find_task
find_task-append j t [] = ground arith
find_task-append j t (x ∷ ts) = ground (arith, find_task-append j t ts)

pub find_task-drop :
    (id j : String) (ts : List Task)
    → Distinct ts
    → find_task j (drop_task id ts) ≡ (if id == j then none else find_task j ts)
unfolding find_task drop_task
find_task-drop id j [] u = ground arith
find_task-drop id j (t ∷ ts) u =
    ground (arith, eq_iff id j, eq_iff t.id id, eq_iff t.id j, find_task-drop id j ts u.1)

pub find_task-outside :
    (project j : String) (ts : List Task)
    → Distinct ts
    → find_task j (select (λ t. not (in_project project t)) ts) ≡ outside project (find_task j ts)
unfolding find_task
find_task-outside project j [] u = refl
find_task-outside project j (t ∷ ts) u =
    ground (arith, eq_iff t.id j, find_task-outside project j ts u.1)

pub replace-Distinct :
    (id : String) (new : Task) (ts : List Task)
    → new.id ≡ id
    → Distinct ts
    → Distinct (replace_task id new ts)
unfolding replace_task
replace-Distinct id new [] e u = tt
replace-Distinct id new (t ∷ ts) e u = ground (
  arith,
  eq_iff t.id id,
  eq_iff id t.id,
  find_task-replace id t.id new ts e,
  replace-Distinct id new ts e u.1,
)

pub append-Distinct :
    (t : Task) (ts : List Task) → find_task t.id ts ≡ none → Distinct ts → Distinct (ts ++ t ∷ [])
unfolding find_task
append-Distinct t [] e u = (refl, tt)
append-Distinct t (x ∷ ts) e u =
    ground
      (arith, eq_iff x.id t.id, eq_iff t.id x.id, find_task-append x.id t ts, append-Distinct t ts)

pub drop-Distinct : (id : String) (ts : List Task) → Distinct ts → Distinct (drop_task id ts)
unfolding drop_task
drop-Distinct id [] u = tt
drop-Distinct id (t ∷ ts) u = ground (arith, find_task-drop id t.id ts u.1, drop-Distinct id ts u.1)

pub outside-Distinct :
    (project : String) (ts : List Task)
    → Distinct ts
    → Distinct (select (λ t. not (in_project project t)) ts)
outside-Distinct project [] u = tt
outside-Distinct project (t ∷ ts) u =
    ground (arith, find_task-outside project t.id ts u.1, outside-Distinct project ts u.1)

pub none_in_project :
    (project : String) (ts : List Task)
    → length (select (in_project project) ts) ≡ 0
    → select (λ t. not (in_project project t)) ts ≡ ts
none_in_project project [] h = refl
none_in_project project (t ∷ ts) h = ground (arith, none_in_project project ts)
