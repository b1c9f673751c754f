-- ===== src/Client/Terminal.antt =====
-- client.go: AttachTerminalAndWait.
use relay_scheduler.Base.{
  ◌≤◌, ◌<◌, String, ◌≡◌, refl, subst, ◌≢◌, ◌⊎◌, inl, inr, Bool, true, false, Option, none, some,
  List, [], ◌∷◌, arith, leb, if◌then◌else◌, ap,
}
use relay_scheduler.Base.Int.{ℤ, negsuc, offset_by}
use Prim.Native.String.{◌++◌ as ◌⧺◌}
use relay_scheduler.Client.{Arrival, deadline_refused, timed_out, dropped, undecodable, frame}
use relay_scheduler.Clock.{Time}
use relay_scheduler.Text.{contains_text}

abbrev pub exit_code_session_lost : ℤ
exit_code_session_lost = negsuc 0

abbrev pub exit_code_timeout : ℤ
exit_code_timeout = negsuc 1

abbrev pub exit_code_create_failed : ℤ
exit_code_create_failed = negsuc 2

pub data TerminalFrame : Type 0 where
  terminal_exit : ℤ → TerminalFrame
  error : String → TerminalFrame
  other : TerminalFrame

-- The exit code, and an error where it is not the process's own.
abbrev pub Exit : Type 0
Exit = ℤ × Option String

-- Nobody reads the text of this error, so the duration that ends it is left out.
abbrev timeout : Exit
timeout = (exit_code_timeout, some "timeout after ")

abbrev lost : String → Exit
lost text = (exit_code_session_lost, some text)

error_exit : String → Exit
unfolding contains_text
error_exit text =
    if contains_text text "terminal not found"
    then lost ("session lost: " ⧺ text)
    else lost ("ws error: " ⧺ text)

-- The loop, over what is still to arrive.
unfoldable pub await_exit : Time → List (Time × Arrival TerminalFrame) → Exit
unfolding error_exit
await_exit deadline [] = timeout
await_exit deadline ((now, a) ∷ rest) =
    let again = await_exit deadline rest in
    if leb deadline now then timeout else elim a [
      | deadline_refused text ↦ lost ("set read deadline: " ⧺ text)
      | timed_out ↦ timeout
      | dropped text ↦ lost ("ws read: " ⧺ text)
      | undecodable ↦ again
      | frame f ↦ elim f [
        | terminal_exit code ↦ (code, none)
        | error text ↦ error_exit text
        | other ↦ again
      ]
    ]

-- How dialling and the join went: an error, or the time at which the wait begins.
pub data Joined : Type 0 where
  dial_failed join_failed : String → Joined
  joined : Time → Joined

unfoldable pub attach_terminal_and_wait : Joined → ℤ → List (Time × Arrival TerminalFrame) → Exit
unfolding await_exit
attach_terminal_and_wait (dial_failed text) duration arrivals = lost ("dial ws: " ⧺ text)
attach_terminal_and_wait (join_failed text) duration arrivals = lost ("send join_terminal: " ⧺ text)
attach_terminal_and_wait (joined start) duration arrivals =
    await_exit (offset_by start duration) arrivals

-- An arrival that ends the wait before its deadline.
abbrev ends : Arrival TerminalFrame → Bool
ends undecodable = false
ends (frame other) = false
ends _ = true

-- A terminal_exit frame, before the deadline, is the first arrival that ends the wait.
pub data FirstExit (deadline : Time) (code : ℤ) : List (Time × Arrival TerminalFrame) → Type 0 where
  now_exits :
      {t : Time} {rest : List (Time × Arrival TerminalFrame)}
      → t < deadline
      → FirstExit deadline code ((t, frame (terminal_exit code)) ∷ rest)
  later_exits :
      {t : Time} {a : Arrival TerminalFrame} {rest : List (Time × Arrival TerminalFrame)}
      → t < deadline
      → ends a ≡ false
      → FirstExit deadline code rest
      → FirstExit deadline code ((t, a) ∷ rest)

-- Where a terminal_exit frame before the deadline is the first arrival that ends the wait, the wait
-- answers its exit code, with no error.
pub await_exit-FirstExit :
    (deadline : Time) (code : ℤ) {arrivals : List (Time × Arrival TerminalFrame)}
    → FirstExit deadline code arrivals
    → await_exit deadline arrivals ≡ (code, none)
unfolding await_exit
await_exit-FirstExit deadline code (now_exits {t = t} h) = ground arith
await_exit-FirstExit deadline code (later_exits {t = t} {a = undecodable} {rest = rest} h e f) =
    ground (arith, await_exit-FirstExit deadline code f)
await_exit-FirstExit deadline code (later_exits {t = t} {a = frame other} {rest = rest} h e f) =
    ground (arith, await_exit-FirstExit deadline code f)
await_exit-FirstExit deadline code (later_exits {a = frame (terminal_exit x)} h e f) = cc
await_exit-FirstExit deadline code (later_exits {a = frame (error x)} h e f) = cc
await_exit-FirstExit deadline code (later_exits {a = timed_out} h e f) = cc
await_exit-FirstExit deadline code (later_exits {a = dropped x} h e f) = cc
await_exit-FirstExit deadline code (later_exits {a = deadline_refused x} h e f) = cc

-- An end of the wait without the process's own exit code.
abbrev pub IsSynthetic : Exit → Type 0
IsSynthetic e = ((e.0 ≡ exit_code_session_lost) ⊎ (e.0 ≡ exit_code_timeout)) × (e.1 ≢ none)

abbrev Ending : Time → List (Time × Arrival TerminalFrame) → Exit → Type 0
Ending deadline arrivals e =
    ((code : ℤ) × FirstExit deadline code arrivals × (e ≡ (code, none))) ⊎ IsSynthetic e

-- A quiet arrival before the deadline hands over to what follows it.
Ending-later :
    (deadline t : Time) (a : Arrival TerminalFrame) (rest : List (Time × Arrival TerminalFrame))
    → t < deadline
    → ends a ≡ false
    → Ending deadline rest (await_exit deadline rest)
    → Ending deadline ((t, a) ∷ rest) (await_exit deadline rest)
Ending-later deadline t a rest h q (inl (code, f, e)) = inl (code, later_exits h q f, e)
Ending-later deadline t a rest h q (inr s) = inr s

late : (deadline t : Time) → (deadline ≤ t) ⊎ (t < deadline)
late deadline t = omega arith

Ending-late :
    (deadline t : Time) (a : Arrival TerminalFrame) (rest : List (Time × Arrival TerminalFrame))
    → deadline ≤ t
    → Ending deadline ((t, a) ∷ rest) (await_exit deadline ((t, a) ∷ rest))
unfolding await_exit
Ending-late deadline t a rest h = inr (ground arith)

Ending-early :
    (deadline t : Time) (a : Arrival TerminalFrame) (rest : List (Time × Arrival TerminalFrame))
    → t < deadline
    → Ending deadline rest (await_exit deadline rest)
    → Ending deadline ((t, a) ∷ rest) (await_exit deadline ((t, a) ∷ rest))
unfolding await_exit
Ending-early deadline t (frame (terminal_exit code)) rest h v =
    inl (code, now_exits h, ground arith)
Ending-early deadline t (frame (error text)) rest h v = inr (ground arith)
Ending-early deadline t (frame other) rest h v =
    subst (Ending deadline ((t, frame other) ∷ rest)) (ground arith)
      (Ending-later deadline t (frame other) rest h refl v)
Ending-early deadline t undecodable rest h v =
    subst (Ending deadline ((t, undecodable) ∷ rest)) (ground arith)
      (Ending-later deadline t undecodable rest h refl v)
Ending-early deadline t timed_out rest h v = inr (ground arith)
Ending-early deadline t (dropped text) rest h v = inr (ground arith)
Ending-early deadline t (deadline_refused text) rest h v = inr (ground arith)

await_exit-Ending :
    (deadline : Time) (arrivals : List (Time × Arrival TerminalFrame))
    → Ending deadline arrivals (await_exit deadline arrivals)
await_exit-Ending deadline [] = inr (unfold await_exit in (inr refl, λ e. cc))
await_exit-Ending deadline ((t, a) ∷ rest) = elim (late deadline t) [
  | inl h ↦ Ending-late deadline t a rest h
  | inr h ↦ Ending-early deadline t a rest h (await_exit-Ending deadline rest)
]

-- The exit code of a terminal_exit frame that is the first arrival to end the wait, in time and with
-- no error, or, where there is no such frame, -1 or -2 with an error.
abbrev pub Verdict : Time → List (Time × Arrival TerminalFrame) → Exit → Type 0
Verdict deadline arrivals e =
    ((code : ℤ) × FirstExit deadline code arrivals × (e ≡ (code, none)))
    ⊎ (((code : ℤ) → ¬ FirstExit deadline code arrivals) × IsSynthetic e)

-- The wait for a terminal answers the process's own exit code, with no error, when a terminal_exit
-- frame before the deadline is the first arrival to end it; and -1 or -2 with an error when none is.
pub await_exit-Verdict :
    (deadline : Time) (arrivals : List (Time × Arrival TerminalFrame))
    → Verdict deadline arrivals (await_exit deadline arrivals)
await_exit-Verdict deadline arrivals = elim (await_exit-Ending deadline arrivals) [
  | inl own ↦ inl own
  | inr s ↦ inr (λ code f. s.1 (ap (λ (e : Exit). e.1) (await_exit-FirstExit deadline code f)), s)
]
