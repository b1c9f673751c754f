-- ===== src/Lib.antt =====
-- relayScheduler: a daemon that runs tasks (routines) for relay, on schedules and on demand. A tick
-- every 30 seconds fires the due tasks; a run asks relay for a chat session or a terminal, waits for
-- its end, writes a history entry, one log line and events for the connected clients, and plans the
-- task's next run. An HTTP API edits the tasks. cmd/devboxverify drives an installed scheduler
-- through relay and judges it.
--
-- Parts and files:
-- - Base: names of the library, lists, results, records with text keys, machine integers. `mul64` is
--   the wrapping product of int64. Text: the functions of strings, strconv and unicode in use.
-- - Clock: Go's time package as schedule.go uses it (time.Date, Add, Weekday, RFC 3339). A Time is
--   the number of nanoseconds since the start of year 1; a Zone is the time zone table.
-- - Schedule: schedule.go. Json is a schedule document as json.Unmarshal sees it, Wall the functions
--   on wall-clock times (nextDaily, nextHourly, nextWeekly, nextCron); `calculate_next_run` is
--   CalculateNextRun with the clock reading as an argument.
-- - Task: the records of task.go.
-- - Store: store.go. A Disk is the tasks file, the temporary file and what goes wrong in a write;
--   each method is a function of it. Calls has the abstract map and the effects promised on it.
-- - History: logstore.go. Hub: hub.go and wshandler.go. Output: output.go.
-- - Client: client.go, for the requests (Request), where they go with which headers (Transport), and
--   the waits (Chat, Terminal), which read a list of arrivals with their times; Heard says
--   independently of Chat what a session's arrivals add up to.
-- - Scheduler: scheduler.go. State has the World that every step acts on, Plan the schedule, the tick
--   and manual runs, Run one run (executeTask) and its traces, Tick what a tick fires, Overlap the
--   scheduler and its goroutines as a sequence of moves.
-- - Api: api.go. Validate has validateTask, Routes the handlers; a handler that calls the store and
--   the scheduler in turn takes what other goroutines do in between as an argument. Refused has the
--   bodies that POST and PUT refuse, Ended a PUT that comes in between the steps of a run's end.
-- - Service: the handlers, the tick and the runs together, as steps on one state, one after the other
--   in any order. Plans and Skipped say what planning and skipping do, Held has the invariant, Placed,
--   Settled and Kept show that the steps keep it, Loaded that LoadAllTasks gives it.
-- - Logging: logging.go. Trace has the trace ids, Clip the cut of long texts, Window the debug window,
--   Line and Standard the keys of a line. A text is its runes, with the bytes that are no UTF-8.
-- - Launch: auth.go, launch.go, newFrontendClient of main.go and NewRelayClient of client.go;
--   Register has bridge.go and manifest.go, Start main of main.go up to the listener.
-- - Verify: cmd/devboxverify. Verify itself has results and output lines (main.go, post.go), Score the
--   exit code, Machine the marker, the credential and the grants (machine.go, frontend.go), Journey
--   the shell routine against any front door (journey_shell_routine.go), Run the run from the flags to
--   the exit code (main.go), Evidence the socket of relay, the comment and the commit status (main.go,
--   post.go).
-- - Examples: the properties at concrete inputs.
--
-- A step that holds the scheduler's or a store's mutex is one function and reads the clock once.
-- What relay and the file system answer to a run, and what other goroutines do to the world while it
-- waits, is the record Outside. Random ids are arguments. JSON encoding and decoding of tasks are
-- inverse to each other, so a file holds tasks. Loops are structural; the decimal printer has fuel for
-- 20 digits, enough for every int64; the journey's wait has fuel for 60 polls, one for each second
-- before its deadline, and is shown never to run out. The request that registers the service is sent
-- by a goroutine of its own, and stands in Start where that is started.
--
-- Overlap and Service have no move for Stop, after which the process ends; Service has none for the
-- deletion of a project, for which the project ids in the schedule would have to agree with those
-- in the store. A handler of Service is one step, and so is the end of a run,
-- `reschedule_or_disable`, though the program lets other goroutines in between the parts of either,
-- the store's call and the scheduler's: what Service shows holds where such calls do not overlap.
-- What comes in between the parts of a handler is in Api, and between those of rescheduleOrDisable
-- in `interrupted_end`. Times are wall-clock readings; the monotonic reading that Go keeps in the
-- next run of an interval, and compares by, is not modelled. Not modelled: the connections of
-- client.go and the exchange of Hello in launch.go, whose answers are arguments; the changes to
-- environment variables; signals and the shutdown in main.go; what git, pgrep, ps, gh and devlock
-- print to cmd/devboxverify, and the encoding of its requests; and the JSON text of tasks.
pub mod Base
pub mod Text
pub mod Clock
pub mod Schedule
pub mod Task
pub mod Store
pub mod History
pub mod Hub
pub mod Output
pub mod Client
pub mod Scheduler
pub mod Launch
pub mod Logging
pub mod Verify
pub mod Api
pub mod Service
pub mod Examples
