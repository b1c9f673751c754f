-- ===== src/Api/Refused.antt =====
-- Which bodies POST and PUT refuse, and what becomes of them.
use relay_scheduler.Base.{
  String, ◌≡◌, refl, ◌≢◌, ◌↔◌, ◌⊎◌, inl, inr, true, false, ◌||◌, Option, none, some, arith, ◌==◌,
  is_empty, Result-cases, Result, ok, err,
}
use relay_scheduler.Base.{◌≡◌, ◌↔◌, ◌⊎◌, true, false, ◌||◌, arith, ◌==◌, is_empty, ok}
use relay_scheduler.Clock.{Time, Zone}
use relay_scheduler.Task.{Task, is_pty, session_type_chat}
use relay_scheduler.Text.{codes, is_blank}
use relay_scheduler.Schedule.{validate_schedule}
use relay_scheduler.Schedule.Json.{is_absent}
use relay_scheduler.Api.Validate.{is_path, check_output, check_mode, validate_task}
use relay_scheduler.Api.Routes.{
  decode_task, post_task, put_task, Response, create_answer, update_answer, bad_task,
}
use relay_scheduler.Scheduler.State.{World}
use relay_scheduler.Store.{Disk, create, update, StoreError}

-- An output file is a plain file name of a PTY task that runs in its project's directory.
abbrev HasOutput : Task → Type 0
HasOutput t =
    (is_empty t.output_file ≡ true)
    ⊎ ((is_pty t ≡ true) × (is_path (codes t.output_file) ≡ false) × (is_empty t.directory ≡ true))

-- A PTY task has a template, a chat task a prompt and a model.
abbrev HasMode : Task → Type 0
HasMode t =
    ((is_pty t ≡ true) × (is_empty t.template_id ≡ false))
    ⊎ ((is_pty t ≡ false)
        × ((is_empty t.session_type || t.session_type == session_type_chat) ≡ true)
        × (is_empty t.prompt ≡ false)
        × (is_blank (codes t.model) ≡ false))

-- What a runnable task needs.
pub record IsRunnable (z : Zone) (now later : Time) (t : Task) : Type 0 where
  pub named : is_empty t.name ≡ false
  pub in_project : is_empty t.project_id ≡ false
  pub has_schedule : is_absent t.schedule ≡ false
  pub schedule_fits : validate_schedule z now later t.schedule ≡ ok tt
  pub output_fits : HasOutput t
  pub mode_fits : HasMode t

check_output-HasOutput : (t : Task) → check_output t ≡ ok tt ↔ HasOutput t
unfolding check_output
check_output-HasOutput t = (ground arith, ground arith)

check_mode-HasMode : (t : Task) → check_mode t ≡ ok tt ↔ HasMode t
unfolding check_mode
check_mode-HasMode t = (ground arith, ground arith)

module _ (z : Zone) (now later : Time) where
  valid-IsRunnable : (t : Task) → validate_task z now later t ≡ ok tt → IsRunnable z now later t
  unfolding validate_task
  valid-IsRunnable t h =
      let output : check_output t ≡ ok tt = ground arith in
      let mode : check_mode t ≡ ok tt = ground arith in
      record {
        named = ground arith;
        in_project = ground arith;
        has_schedule = ground arith;
        schedule_fits = ground arith;
        output_fits = (check_output-HasOutput t).0 output;
        mode_fits = (check_mode-HasMode t).0 mode;
      }

  IsRunnable-valid : (t : Task) → IsRunnable z now later t → validate_task z now later t ≡ ok tt
  unfolding validate_task
  IsRunnable-valid t r =
      let output : check_output t ≡ ok tt = (check_output-HasOutput t).1 r.output_fits in
      let mode : check_mode t ≡ ok tt = (check_mode-HasMode t).1 r.mode_fits in
      rw (r.named, r.in_project, r.has_schedule, r.schedule_fits, output, mode) refl

-- A body that is not JSON, or no runnable task.
pub data IsUnfit (w : World) (later : Time) : Result String Task → Type 0 where
  not_json : (e : String) → IsUnfit w later (err e)
  not_runnable : (t : Task) → ¬ IsRunnable w.zone w.now later t → IsUnfit w later (ok t)

-- What a handler does with a body: it answers 400 exactly if the body is unfit, and leaves all as
-- it was then.
abbrev pub Refuses : World → Time → Result String Task → World × Response → Type 0
Refuses w later body (v, r) = (r.0 ≡ 400 ↔ IsUnfit w later body) × (IsUnfit w later body → v ≡ w)

unfit_refused :
    (w : World) (later : Time) (body : Result String Task)
    → IsUnfit w later body
    → (r : Response) × (decode_task w later body ≡ err r) × (r.0 ≡ 400)
unfolding decode_task
unfit_refused w later body (not_json e) = (_, refl, refl)
unfit_refused w later body (not_runnable t h) =
    elim (Result-cases (validate_task w.zone w.now later t)) [
      | inl (u, e) ↦ absurd (h (valid-IsRunnable w.zone w.now later t e))
      | inr (x, e) ↦ ((400, bad_task x), rw (e, decode_task) refl, refl)
    ]

fit_decodes :
    (w : World) (later : Time) (body : Result String Task)
    → IsUnfit w later body ⊎ ((t : Task) × (decode_task w later body ≡ ok t))
unfolding decode_task
fit_decodes w later (err e) = inl (not_json e)
fit_decodes w later (ok t) = elim (Result-cases (validate_task w.zone w.now later t)) [
  | inl (u, e) ↦ inr (t, rw (e, decode_task) refl)
  | inr (x, e) ↦ inl (not_runnable t (λ r. let c = IsRunnable-valid w.zone w.now later t r in cc))
]

create_answer-not_400 :
    (w : World) (between : World → World) (d : Disk) (r : Result StoreError Task)
    → (create_answer w between (d, r)).1.0 ≢ 400
create_answer-not_400 w between d (ok t) e = omega (arith, e)
create_answer-not_400 w between d (err x) e = omega (arith, e)

update_answer-not_400 :
    (w : World) (between : World → World) (d : Disk) (r : Result StoreError (Option Task))
    → (update_answer w between (d, r)).1.0 ≢ 400
update_answer-not_400 w between d (ok (some t)) e = omega (arith, e)
update_answer-not_400 w between d (ok none) e = omega (arith, e)
update_answer-not_400 w between d (err x) e = omega (arith, e)

post_task-Refuses :
    (w : World) (later : Time) (new_id : String) (between : World → World)
    (body : Result String Task)
    → Refuses w later body (post_task w later new_id between body)
unfolding post_task
post_task-Refuses w later new_id between body = (
  (
    λ answered. elim (fit_decodes w later body) [
      | inl u ↦ u
      | inr (t, e) ↦ absurd (
          create_answer-not_400 w between (create w.disk w.now new_id t).0
            (create w.disk w.now new_id t).1 (rw (e, post_task) at answered))
    ],
    λ u. let (r, e, same) = unfit_refused w later body u in rw (e, post_task) same,
  ),
  λ u. let (r, e, same) = unfit_refused w later body u in rw (e, post_task) refl,
)

put_task-Refuses :
    (w : World) (later : Time) (id : String) (between : World → World) (body : Result String Task)
    → Refuses w later body (put_task w later id between body)
unfolding put_task
put_task-Refuses w later id between body = (
  (
    λ answered. elim (fit_decodes w later body) [
      | inl u ↦ u
      | inr (t, e) ↦ absurd (
          update_answer-not_400 w between (update w.disk w.now id t).0 (update w.disk w.now id t).1
            (rw (e, put_task) at answered))
    ],
    λ u. let (r, e, same) = unfit_refused w later body u in rw (e, put_task) same,
  ),
  λ u. let (r, e, same) = unfit_refused w later body u in rw (e, put_task) refl,
)

-- POST and PUT answer 400 exactly to a body that is not JSON or no runnable task: one with a name,
-- a project, a schedule that validates, and what its kind of session needs; and such a body changes
-- nothing.
pub refused_changes_nothing :
    (w : World) (later : Time) (id new_id : String) (between : World → World)
    (body : Result String Task)
    → Refuses w later body (post_task w later new_id between body)
      × Refuses w later body (put_task w later id between body)
refused_changes_nothing w later id new_id between body =
    (post_task-Refuses w later new_id between body, put_task-Refuses w later id between body)
