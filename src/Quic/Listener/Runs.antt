-- ===== src/Quic/Listener/Runs.antt =====
-- Runs of the listener of crates/net/quic/src/state/listener.rs: any sequence of its calls, with the
-- connections that have arrived, been accepted or failed in a read.
use hala_rs.Base.{ℕ, Option, none, some, List, [], ◌∷◌, ◌++◌, Outcome, ok, err, get_elem?}
use hala_rs.Io.Error.{ErrorKind}
use hala_rs.Io.ReadBuf.{Bytes}
use hala_rs.Quic.Api.{Quiche}
use hala_rs.Quic.Acceptor.{Server, RecvInfo}
use hala_rs.Quic.Listener.{Peer, QuicListenerState, new, WriteResult, incoming_conn, close}
use hala_rs.Quic.Listener.Calls.{Round, finished, write, accept, on_read, then_status}

-- A call; a round of `read` has the place of the task in the batcher that gives a result, and the
-- result, or finds the batcher closed.
pub data Call (I : Type 0) : Type 0 where
  writing : (now ping_timeout : ℕ) (buf : Bytes) (n : ℕ) (info : RecvInfo) → Call I
  accepting : (waiter : ℕ) → Call I
  reading : (task : ℕ) (result : Outcome ErrorKind (Bytes × I)) → Call I
  reading_closed : Call I
  closing : Call I

pub record Run (C : Type 0) : Type 0 where
  pub arrived : List Peer
  pub accepted : List Peer
  pub failed : List ℕ
  pub listener : QuicListenerState C

abbrev pub start : (C : Type 0) → Run C
start C = record { arrived = []; accepted = []; failed = []; listener = new C }

abbrev pub log_failed : {I : Type 0} → Peer → Outcome ErrorKind (Bytes × I) → List ℕ → List ℕ
log_failed p (ok r) hs = hs
log_failed p (err e) hs = p.handle ∷ hs

module _ {C : Type 0} where
  abbrev pub log_accepted : Round (Option Peer) × QuicListenerState C → Run C → Run C
  log_accepted (finished (some p), s) r = record r {
    accepted = r.accepted ++ (p ∷ []);
    listener = s;
  }
  log_accepted (result, s) r = record r { listener = s }

module _ {C I : Type 0} where
  abbrev pub log_written :
      Option (Outcome ErrorKind (WriteResult I) × QuicListenerState C) → Run C → Run C
  log_written none r = r
  log_written (some (ok (incoming_conn p n packet info), s)) r = record r {
    arrived = r.arrived ++ (p ∷ []);
    listener = s;
  }
  log_written (some (result, s)) r = record r { listener = s }

  abbrev pub perform_read : Option Peer → Outcome ErrorKind (Bytes × I) → Run C → Run C
  perform_read none result r = r
  perform_read (some p) result r = record r {
    failed = log_failed p result r.failed;
    listener = (on_read (some (p, result)) r.listener).1;
  }

module _ {C I : Type 0} (Q : Quiche C I) (S : Server C I) (source_id : C → Bytes) where
  unfoldable pub perform : Call I → Run C → Run C
  unfolding write accept on_read close
  perform (writing now ping_timeout buf n info) r =
      log_written (write Q S source_id now ping_timeout buf n info r.listener) r
  perform (accepting waiter) r = log_accepted (accept waiter r.listener) r
  perform (reading task result) r = perform_read (get_elem? r.listener.conns_read task) result r
  perform reading_closed r = record r { listener = (on_read {I = I} none r.listener).1 }
  perform closing r = record r { listener = close r.listener }

  unfoldable pub run : List (Call I) → Run C → Run C
  unfolding perform
  run [] r = r
  run (call ∷ calls) r = run calls (perform call r)

-- What holds of a listener on both paths behind its status holds behind the status.
pub then_status-holds {ℓ} :
    {C A : Type 0} (P : QuicListenerState C → Type ℓ) (o : Outcome ErrorKind (Unit {0}))
    (r : Round (Outcome ErrorKind A) × QuicListenerState C) (s : QuicListenerState C)
    → P r.1
    → P s
    → P (then_status o r s).1
then_status-holds P (err e) r s h g = g
then_status-holds P (ok u) r s h g = h
