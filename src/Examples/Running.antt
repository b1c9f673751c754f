-- ===== src/Examples/Running.antt =====
-- Runs: the properties of scheduler.go, client.go and hub.go on one task.
use relay_scheduler.Base.{
  eq_iff, false, ◌<◌, ◌*◌, nat_eq, if◌then◌else◌, lookup, ◌+◌, String, ◌≡◌, refl, some, List, [],
  ◌∷◌, ◌++◌, arith, ok, err, contains, ◌≢◌, none, true,
}
use relay_scheduler.Base.Int.{negsuc, pos_part, pos}
use relay_scheduler.Clock.{second, Time}
use relay_scheduler.Client.{Arrival, frame, undecodable}
use relay_scheduler.Client.Request.{answered}
use relay_scheduler.Client.Chat
use relay_scheduler.Client.Chat.{
  ChatFrame, completed, no_stats, llm_event, stats_update, message_complete, run_chat_and_wait,
  chat_timeout,
}
use relay_scheduler.Client.Heard.{
  Hears, silence, noise, foreign_frame, own_frame, speaks, other_delta, counts, frame_of, IsOwn,
  run_chat_and_wait_complete,
}
use relay_scheduler.Task.{SessionStats}
use relay_scheduler.Base.Int.{offset_by}
use relay_scheduler.Base.{inl, inr, ℕ}
use relay_scheduler.Client.Terminal
use relay_scheduler.Client.Terminal.{
  TerminalFrame, terminal_exit, await_exit, Verdict, FirstExit, now_exits, await_exit-Verdict,
  await_exit-FirstExit,
}
use relay_scheduler.Output.{not_exist}
use relay_scheduler.Client.Transport.{
  Reading, ipv4, OnBox, peer, request_headers, ws_headers, trace_stays-OnBox,
}
use relay_scheduler.Launch.{FrontendClient}
use relay_scheduler.Scheduler.Run.{RunCtx, Outside, execute_task}
use relay_scheduler.Scheduler.Run.{run_timeout}
use relay_scheduler.Scheduler.Run.Timeout.{run_timeout_lem}
use relay_scheduler.Scheduler.Run.Footprint.{footprint}
use relay_scheduler.Scheduler.Run.Ends.{IsAccounted}
use relay_scheduler.Scheduler.Run.Accounted.{LeavesAlone, execute_task-IsAccounted}
use relay_scheduler.Scheduler.Overlap.{System, Move, ticks, runs_now, Once, moves, moves-Once}
use relay_scheduler.Examples.{noon, digest, world}

abbrev rc : RunCtx
rc = record { run_id = "r1"; trigger = "schedule" }

abbrev replies : List (Time × Arrival ChatFrame)
replies =
    (
      noon,
      frame (record { session_id = "s1"; body = llm_event (some ("text_delta", "Two letters.")) }),
    )
    ∷ (noon + 1, undecodable)
    ∷ []

abbrev outside : Outside
outside = record {
  project = answered 200 "" (ok (record { id = "p1"; path = "/home/p1" }));
  session = answered 201 "" (ok "s1");
  turn = Chat.started noon;
  chat = replies ++ (noon + 2, frame (record { session_id = "s1"; body = message_complete })) ∷ [];
  terminal = answered 201 "" (err "no template");
  joined = Terminal.dial_failed "refused";
  arrivals = [];
  log = answered 404 "" (err "");
  file = err not_exist;
  during_lookup = λ w. w;
  during_create = λ w. w;
  during_wait = λ w. w;
}

outside-LeavesAlone : LeavesAlone rc digest outside
outside-LeavesAlone = record { lookup = λ w. refl; creation = λ w. refl; wait = λ w. refl }

execute_task-IsAccounted_example :
    IsAccounted rc digest
      (footprint rc digest world)
      (footprint rc digest (execute_task world rc digest outside))
execute_task-IsAccounted_example =
    execute_task-IsAccounted world rc digest outside outside-LeavesAlone refl

abbrev twice : List Move
twice = ticks ∷ runs_now "a1" ∷ ticks ∷ []

abbrev idle : System
idle = record { world = world; active = [] }

moves-Once_example :
    Once (moves idle twice).active
    × ((k : String)
        → contains k (moves idle twice).world.scheduler.running
          ≡ contains k (moves idle twice).active)
unfolding lookup
moves-Once_example = moves-Once world twice refl (refl, refl, tt)

abbrev exits : List (Time × Arrival TerminalFrame)
exits = (noon, frame (terminal_exit (pos 3))) ∷ []

await_exit-Verdict_example : Verdict (noon + 1) exits (await_exit (noon + 1) exits)
await_exit-Verdict_example = await_exit-Verdict (noon + 1) exits

abbrev used : ℕ → SessionStats
used n = record no_stats { output_tokens = pos n }

-- A text delta, one of another kind, another session, an undecodable payload, and statistics twice.
abbrev talk : List (Time × Arrival ChatFrame)
talk =
    (noon, frame_of "s1" (llm_event (some ("text_delta", "Two "))))
    ∷ (noon, frame_of "s1" (llm_event (some ("thinking_delta", "hm"))))
    ∷ (noon, frame_of "s2" (llm_event (some ("text_delta", "no"))))
    ∷ (noon + 1, undecodable)
    ∷ (noon + 1, frame_of "" (stats_update (some (used 3))))
    ∷ (noon + 1, frame_of "s1" (llm_event (some ("text_delta", "letters."))))
    ∷ (noon + 1, frame_of "s1" (stats_update (some (used 4))))
    ∷ []

other_session : ¬ IsOwn "s1" "s2"
other_session (inl e) = cc
other_session (inr e) = let c : false ≡ true = (eq_iff "s2" "s1").1 e in cc

talk-Hears : Hears "s1" (offset_by noon (pos 60)) "" no_stats talk "Two letters." (used 4)
talk-Hears = own_frame soon (inr refl) (speaks "Two ") (
    own_frame soon (inr refl) (other_delta "thinking_delta" "hm" (λ e. cc)) (
      foreign_frame soon other_session (
        noise later (
          own_frame later (inl refl) (counts (used 3)) (
            own_frame later (inr refl) (speaks "letters.")
              (own_frame later (inr refl) (counts (used 4)) silence))))))
  where
    soon : noon < offset_by noon (pos 60)
    soon = omega arith

    later : noon + 1 < offset_by noon (pos 60)
    later = omega arith

run_chat_and_wait_complete_example :
    (run_chat_and_wait
        (Chat.started noon)
        "s1"
        (pos 60)
        (talk ++ (noon + 2, frame_of "s1" message_complete) ∷ [])
      ≡ completed "Two letters." (used 4))
    × (run_chat_and_wait (Chat.started noon) "s1" (pos 60) (talk ++ []) ≡ chat_timeout)
run_chat_and_wait_complete_example =
    run_chat_and_wait_complete "s1" "s1" noon (noon + 2) (pos 60) talk [] "Two letters." (used 4)
      talk-Hears (omega arith) (inr refl)

run_timeout_lem_example :
    (0 < pos_part (run_timeout (negsuc 4)))
    × (run_timeout (pos 60) ≡ pos (if nat_eq 60 0 then 1800 * second else 60 * second))
run_timeout_lem_example = run_timeout_lem (negsuc 4) 60 (omega arith)

abbrev loopback : Reading
loopback url = ipv4 127 0 0 1

abbrev direct : FrontendClient
direct = record { relay_url = "http://127.0.0.1:3000"; relay_socket = ""; relay_token = "k" }

trace_stays-OnBox_example :
    (lookup "X-Trace-Id" (request_headers loopback direct "t-1234567") ≢ none
      → OnBox (peer loopback direct))
    × (lookup "X-Trace-Id" (ws_headers loopback direct "t-1234567") ≢ none
        → OnBox (peer loopback direct))
trace_stays-OnBox_example = trace_stays-OnBox loopback direct "t-1234567"
