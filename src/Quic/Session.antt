-- ===== src/Quic/Session.antt =====
-- Sessions of one connection of crates/net/quic/src/state/conn.rs: any sequence of its calls, each
-- from taking the lock to giving it back, with the ids that the calls returned.
pub mod Stable
pub mod Keeps
pub mod Runs
pub mod Ids
pub mod Limits
use hala_rs.Base.{ℕ, Bool, Option, none, some, List, [], ◌∷◌, ◌++◌, Outcome, ok, err}
use hala_rs.Io.ReadBuf.{Bytes}
use hala_rs.Quic.Api.{Quiche}
use hala_rs.Quic.Conn.{QuicConnState, Handled}
use hala_rs.Quic.Conn.Calls.{
  Round, finished, waiting, again, Wakeup, stream_send, stream_recv, accept, open_stream,
  close_stream,
}
use hala_rs.Quic.Conn.Packets.{read, read_after_wait, write, stream_shutdown, close}

pub data Call : Type 0 where
  opening : Call
  closing : ℕ → Call
  sending : ℕ → Bytes → Bool → Call
  receiving : ℕ → ℕ → Call
  accepting : Call
  reading : ℕ → ℕ → Call
  waking : ℕ → Wakeup → Call
  writing : Bytes → Call
  shutting : ℕ → ℕ → Call
  finishing : Bool → ℕ → Bytes → Call

-- `opened` and `accepted` are in the order in which `open_stream` and `accept` returned them.
pub record Session (C : Type 0) : Type 0 where
  pub opened : List ℕ
  pub accepted : List ℕ
  pub conn : QuicConnState C

module _ {C : Type 0} where
  abbrev pub log_opened : Handled C ℕ → Session C → Session C
  log_opened (ok id, c) s = record s { opened = s.opened ++ (id ∷ []); conn = c }
  log_opened (err e, c) s = record s { conn = c }

  abbrev pub log_accepted : Round (Option ℕ) × QuicConnState C → Session C → Session C
  log_accepted (finished (ok (some id)), c) s = record s {
    accepted = s.accepted ++ (id ∷ []);
    conn = c;
  }
  log_accepted (r, c) s = record s { conn = c }

  -- A `write` that does not end leaves the session as it was.
  abbrev pub log_written : Option (Handled C ℕ) → Session C → Session C
  log_written none s = s
  log_written (some (r, c)) s = record s { conn = c }

module _ {C I : Type 0} (Q : Quiche C I) where
  unfoldable pub perform : Call → Session C → Session C
  perform opening s = log_opened (open_stream Q s.conn) s
  perform (closing id) s = record s { conn = (close_stream Q id s.conn).1 }
  perform (sending id buf fin) s = record s { conn = (stream_send Q id buf fin s.conn).1 }
  perform (receiving id n) s = record s { conn = (stream_recv Q id n s.conn).1 }
  perform accepting s = log_accepted (accept Q s.conn) s
  perform (reading now n) s = record s { conn = (read Q now n s.conn).1 }
  perform (waking now w) s = record s { conn = (read_after_wait Q now w s.conn).1 }
  perform (writing buf) s = log_written (write Q buf s.conn) s
  perform (shutting id e) s = record s { conn = (stream_shutdown Q id e s.conn).1 }
  perform (finishing app e reason) s = record s { conn = (close Q app e reason s.conn).1 }

  unfoldable pub run : List Call → Session C → Session C
  unfolding perform
  run [] s = s
  run (call ∷ calls) s = run calls (perform call s)
