-- ===== src/Api/Validate.antt =====
-- api.go: validateTask and decodeTask.
use relay_scheduler.Base.{
  ℕ, String, Bool, not, ◌&&◌, ◌||◌, [], ◌∷◌, nat_eq, ◌==◌, is_empty, if◌then◌else◌, Result, ok, err,
  ◌>>◌, refuse, map_err,
}
use relay_scheduler.Text.{Text, codes, text_eq, has_code, contains_any, is_blank}
use relay_scheduler.Clock.{Time, Zone}
use relay_scheduler.Schedule.{validate_schedule}
use relay_scheduler.Schedule.Json.{is_absent}
use relay_scheduler.Schedule.Wall.{ScheduleError}
use relay_scheduler.Task.{Task, is_pty, session_type_chat}

pub data TaskError : Type 0 where
  name_required project_required schedule_required : TaskError
  invalid_schedule : ScheduleError → TaskError
  output_not_pty output_not_name output_with_directory : TaskError
  template_required prompt_required model_required : TaskError
  invalid_session_type : String → TaskError

abbrev slash : ℕ
slash = 0x2f

-- filepath.Base: the part behind the last slash, trailing slashes left out.
unfoldable pub strip_slashes : Text → Text
strip_slashes [] = []
strip_slashes (c ∷ s) =
    let rest = strip_slashes s in if nat_eq c slash && text_eq rest [] then [] else c ∷ rest

unfoldable pub last_part : Text → Text
last_part [] = []
last_part (c ∷ s) =
    let rest = last_part s in if has_code slash s then rest else if nat_eq c slash then s else c ∷ s

abbrev part_or_root : Text → Text
part_or_root [] = slash ∷ []
part_or_root (c ∷ s) = last_part (c ∷ s)

unfoldable pub base_name : Text → Text
unfolding strip_slashes last_part
base_name [] = codes "."
base_name (c ∷ s) = part_or_root (strip_slashes (c ∷ s))

-- The tests on the name of the output file.
unfoldable pub is_path : Text → Bool
unfolding base_name
is_path f =
    not (text_eq (base_name f) f)
    || text_eq f (codes ".")
    || text_eq f (codes "..")
    || contains_any f (slash ∷ 0x5c ∷ 0 ∷ [])

unfoldable pub check_output : Task → Result TaskError (Unit {0})
unfolding is_path
check_output task = if is_empty task.output_file then ok tt else do
  refuse (not (is_pty task)) output_not_pty
  refuse (is_path (codes task.output_file)) output_not_name
  refuse (not (is_empty task.directory)) output_with_directory

unfoldable pub check_mode : Task → Result TaskError (Unit {0})
check_mode task =
    if is_pty task
    then refuse (is_empty task.template_id) template_required
    else if is_empty task.session_type || task.session_type == session_type_chat
    then (do
      refuse (is_empty task.prompt) prompt_required
      refuse (is_blank (codes task.model)) model_required)
    else err (invalid_session_type task.session_type)

unfoldable pub validate_task : Zone → Time → Time → Task → Result TaskError (Unit {0})
unfolding check_output check_mode
validate_task zone now later task = do
  refuse (is_empty task.name) name_required
  refuse (is_empty task.project_id) project_required
  refuse (is_absent task.schedule) schedule_required
  map_err invalid_schedule (validate_schedule zone now later task.schedule)
  check_output task
  check_mode task
