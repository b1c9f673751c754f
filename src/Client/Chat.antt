-- ===== src/Client/Chat.antt =====
-- client.go: RunChatAndWait.
use relay_scheduler.Base.{
  String, Bool, true, false, not, ◌&&◌, Option, none, some, List, [], ◌∷◌, leb, ◌==◌, is_empty,
  if◌then◌else◌,
}
use relay_scheduler.Base.Int.{ℤ, pos, offset_by}
use Prim.Native.String.{◌++◌ as ◌⧺◌}
use relay_scheduler.Clock.{Time}
use relay_scheduler.Task.{SessionStats}
use relay_scheduler.Client.{Arrival, deadline_refused, timed_out, dropped, undecodable, frame}

-- The type and the text of a delta, where the event decodes and has one.
pub data ChatBody : Type 0 where
  llm_event : Option (String × String) → ChatBody
  stats_update : Option SessionStats → ChatBody
  message_complete process_exited : ChatBody
  error : String → ChatBody
  other : ChatBody

pub record ChatFrame : Type 0 where
  pub session_id : String
  pub body : ChatBody

pub data ChatOutcome : Type 0 where
  completed : String → SessionStats → ChatOutcome
  chat_timeout : ChatOutcome
  chat_failed : String → ChatOutcome

abbrev pub no_stats : SessionStats
no_stats = record {
  input_tokens = pos 0;
  output_tokens = pos 0;
  cache_read_tokens = pos 0;
  cache_creation_tokens = pos 0;
  cost_usd = 0;
}

-- A frame of another session.
abbrev pub foreign : String → ChatFrame → Bool
foreign session f = not (is_empty f.session_id) && not (f.session_id == session)

abbrev newer : Option SessionStats → SessionStats → SessionStats
newer none old = old
newer (some new) old = new

-- The text and the statistics after a body.
abbrev pub spoken : ChatBody → String → String
spoken (llm_event (some (kind, said))) text = if kind == "text_delta" then text ⧺ said else text
spoken _ text = text

abbrev pub counted : ChatBody → SessionStats → SessionStats
counted (stats_update s) stats = newer s stats
counted _ stats = stats

-- How a body ends the turn, if it does.
abbrev pub ending : ChatBody → String → SessionStats → Option ChatOutcome
ending message_complete text stats = some (completed text stats)
ending process_exited text stats = some (chat_failed "provider process exited unexpectedly")
ending (error message) text stats = some (chat_failed message)
ending _ text stats = none

-- The loop, over what is still to arrive.
unfoldable pub await_reply :
    String → Time → String → SessionStats → List (Time × Arrival ChatFrame) → ChatOutcome
await_reply session deadline text stats [] = chat_timeout
await_reply session deadline text stats ((now, a) ∷ rest) = elim (leb deadline now) [
  | true ↦ chat_timeout
  | false ↦ elim a [
    | deadline_refused e ↦ chat_failed ("set read deadline: " ⧺ e)
    | timed_out ↦ chat_timeout
    | dropped e ↦ chat_failed ("ws read: " ⧺ e)
    | undecodable ↦ await_reply session deadline text stats rest
    | frame f ↦ elim (foreign session f) [
      | true ↦ await_reply session deadline text stats rest
      | false ↦ elim (ending f.body text stats) [
        | some outcome ↦ outcome
        | none ↦ await_reply session deadline (spoken f.body text) (counted f.body stats) rest
      ]
    ]
  ]
]

pub data Turn : Type 0 where
  dial_failed join_failed send_failed : String → Turn
  started : Time → Turn

unfoldable pub run_chat_and_wait : Turn → String → ℤ → List (Time × Arrival ChatFrame) → ChatOutcome
unfolding await_reply
run_chat_and_wait (dial_failed e) session duration arrivals = chat_failed ("dial ws: " ⧺ e)
run_chat_and_wait (join_failed e) session duration arrivals =
    chat_failed ("send join_session: " ⧺ e)
run_chat_and_wait (send_failed e) session duration arrivals = chat_failed ("send_message: " ⧺ e)
run_chat_and_wait (started start) session duration arrivals =
    await_reply session (offset_by start duration) "" no_stats arrivals
