-- ===== src/Client.antt =====
-- client.go: the waits on a session or a terminal. What relay sends is a list of arrivals, each
-- with the clock reading before its read; the list ends where nothing comes before the deadline,
-- and a read then times out. A payload is what json.Unmarshal makes of it.
pub mod Request
pub mod Terminal
pub mod Transport
pub mod Chat
pub mod Heard
use relay_scheduler.Base.{ℕ, String}

pub data Arrival (A : Type 0) : Type 0 where
  deadline_refused : String → Arrival A
  timed_out : Arrival A
  dropped : String → Arrival A
  undecodable : Arrival A
  frame : A → Arrival A
