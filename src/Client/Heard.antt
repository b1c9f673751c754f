-- ===== src/Client/Heard.antt =====
-- What RunChatAndWait hears before a turn ends, and what it answers then.
use relay_scheduler.Base.{
  ◌<◌, String, ◌≡◌, refl, ◌∙◌, ◌≢◌, ◌⊎◌, inl, inr, true, false, not, ◌&&◌, none, some, List, [],
  ◌∷◌, ◌++◌, arith, eq_iff, ◌==◌, is_empty, Bool-cases,
}
use relay_scheduler.Base.Int.{ℤ, offset_by}
use Prim.Native.String.{◌++◌ as ◌⧺◌}
use relay_scheduler.Clock.{Time}
use relay_scheduler.Task.{SessionStats}
use relay_scheduler.Client.{Arrival, undecodable, frame}
use relay_scheduler.Client.Chat.{
  ChatBody, llm_event, stats_update, other, message_complete, ChatFrame, completed, chat_timeout,
  no_stats, await_reply, run_chat_and_wait, started,
}

abbrev pub frame_of : String → ChatBody → Arrival ChatFrame
frame_of id body = frame (record { session_id = id; body = body })

-- A frame belongs to a session if it names it, or names none.
abbrev pub IsOwn : String → String → Type 0
IsOwn session id = (id ≡ "") ⊎ (id ≡ session)

-- The reply's text and statistics before and after a body that does not end the turn: a text delta
-- is appended, new statistics replace the old, and all else adds nothing.
pub data Adds (text : String) (stats : SessionStats)
    : ChatBody → String → SessionStats → Type 0 where
  speaks :
      (said : String) → Adds text stats (llm_event (some ("text_delta", said))) (text ⧺ said) stats
  other_delta :
      (kind said : String)
      → kind ≢ "text_delta"
      → Adds text stats (llm_event (some (kind, said))) text stats
  no_delta : Adds text stats (llm_event none) text stats
  counts : (new : SessionStats) → Adds text stats (stats_update (some new)) text new
  no_count : Adds text stats (stats_update none) text stats
  passes_by : Adds text stats other text stats

-- Arrivals before the deadline that do not end the turn, from the reply before them to the reply
-- after them: an undecodable payload and a frame of another session, whatever its body, add nothing.
pub data Hears (session : String) (deadline : Time)
    : String → SessionStats → List (Time × Arrival ChatFrame) → String → SessionStats → Type 0 where
  silence : {text : String} {stats : SessionStats} → Hears session deadline text stats [] text stats
  noise :
      {t : Time} {text text' : String} {stats stats' : SessionStats}
      {rest : List (Time × Arrival ChatFrame)}
      → t < deadline
      → Hears session deadline text stats rest text' stats'
      → Hears session deadline text stats ((t, undecodable) ∷ rest) text' stats'
  foreign_frame :
      {t : Time} {text text' id : String} {stats stats' : SessionStats} {b : ChatBody}
      {rest : List (Time × Arrival ChatFrame)}
      → t < deadline
      → ¬ IsOwn session id
      → Hears session deadline text stats rest text' stats'
      → Hears session deadline text stats ((t, frame_of id b) ∷ rest) text' stats'
  own_frame :
      {t : Time} {text text1 text' id : String} {stats stats1 stats' : SessionStats} {b : ChatBody}
      {rest : List (Time × Arrival ChatFrame)}
      → t < deadline
      → IsOwn session id
      → Adds text stats b text1 stats1
      → Hears session deadline text1 stats1 rest text' stats'
      → Hears session deadline text stats ((t, frame_of id b) ∷ rest) text' stats'

module _ (session : String) (deadline : Time) where
  differing : (kind : String) → kind ≢ "text_delta" → (kind == "text_delta") ≡ false
  differing kind k = elim (Bool-cases (kind == "text_delta")) [
    | inl e ↦ absurd (k ((eq_iff kind "text_delta").0 e))
    | inr e ↦ e
  ]

  own_lem : (id : String) → IsOwn session id → (not (is_empty id) && not (id == session)) ≡ false
  own_lem id (inl e) = let same : (id == "") ≡ true = (eq_iff id "").1 e in ground (arith, same)
  own_lem id (inr e) =
      let same : (id == session) ≡ true = (eq_iff id session).1 e in ground (arith, same)

  foreign_lem :
      (id : String) → ¬ IsOwn session id → (not (is_empty id) && not (id == session)) ≡ true
  foreign_lem id away = elim (Bool-cases (id == "")) [
    | inl e ↦ absurd (away (inl ((eq_iff id "").0 e)))
    | inr e ↦ elim (Bool-cases (id == session)) [
      | inl f ↦ absurd (away (inr ((eq_iff id session).0 f)))
      | inr f ↦ ground (arith, e, f)
    ]
  ]

  await_reply-own :
      (t : Time) (text : String) (stats : SessionStats) (id : String) (b : ChatBody)
      (rest : List (Time × Arrival ChatFrame)) (text' : String) (stats' : SessionStats)
      → t < deadline
      → IsOwn session id
      → Adds text stats b text' stats'
      → await_reply session deadline text stats ((t, frame_of id b) ∷ rest)
        ≡ await_reply session deadline text' stats' rest
  unfolding await_reply
  await_reply-own t text stats id _ rest _ _ h own (speaks said) = ground (arith, own_lem id own)
  await_reply-own t text stats id _ rest _ _ h own (other_delta kind said k) =
      let differs : (kind == "text_delta") ≡ false = differing kind k in
      ground (arith, own_lem id own, differs)
  await_reply-own t text stats id _ rest _ _ h own no_delta = ground (arith, own_lem id own)
  await_reply-own t text stats id _ rest _ _ h own (counts new) = ground (arith, own_lem id own)
  await_reply-own t text stats id _ rest _ _ h own no_count = ground (arith, own_lem id own)
  await_reply-own t text stats id _ rest _ _ h own passes_by = ground (arith, own_lem id own)

  await_reply-Hears :
      {text text' : String} {stats stats' : SessionStats} {pre : List (Time × Arrival ChatFrame)}
      (rest : List (Time × Arrival ChatFrame))
      → Hears session deadline text stats pre text' stats'
      → await_reply session deadline text stats (pre ++ rest)
        ≡ await_reply session deadline text' stats' rest
  unfolding await_reply
  await_reply-Hears rest silence = refl
  await_reply-Hears rest (noise h more) = ground (arith, await_reply-Hears rest more)
  await_reply-Hears rest (foreign_frame {id = id} {b = b} h away more) =
      ground (arith, foreign_lem id away, await_reply-Hears rest more)
  await_reply-Hears rest (own_frame {id = id} {b = b} h own adds more) =
      await_reply-own _ _ _ id b _ _ _ h own adds ∙ await_reply-Hears rest more

-- A turn whose message_complete frame arrives before the deadline succeeds with the text deltas of
-- this session, in their order, and its last statistics, whatever frames of other sessions and
-- undecodable payloads arrive in between; one whose arrivals stop there is a timeout.
pub run_chat_and_wait_complete :
    (session id : String) (start t : Time) (duration : ℤ)
    (pre rest : List (Time × Arrival ChatFrame)) (text : String) (stats : SessionStats)
    → Hears session (offset_by start duration) "" no_stats pre text stats
    → t < offset_by start duration
    → IsOwn session id
    → (run_chat_and_wait
          (started start)
          session
          duration
          (pre ++ (t, frame_of id message_complete) ∷ rest)
        ≡ completed text stats)
      × (run_chat_and_wait (started start) session duration (pre ++ []) ≡ chat_timeout)
unfolding run_chat_and_wait
run_chat_and_wait_complete session id start t duration pre rest text stats heard early own =
    let ours = own_lem session (offset_by start duration) id own in
    (
      await_reply-Hears session (offset_by start duration) _ heard
          ∙ unfold await_reply in ground (arith, ours),
      await_reply-Hears session (offset_by start duration) [] heard ∙ unfold await_reply in refl,
    )
