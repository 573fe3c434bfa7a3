-- ===== src/Quic/Conn/Dropping.antt =====
-- crates/net/quic/src/state/conn.rs: the streams that close, and the ping timer.
use hala_rs.Base.{
  ℕ, suc, zero, ◌-◌, Bool, true, false, ◌&&◌, Option, none, some, List, [], ◌∷◌, ◌++◌, Outcome, ok,
  err, ltb, if◌then◌else◌,
}
use hala_rs.Base.Maps.{Nat-Eq, insert}
use hala_rs.Io.ReadBuf.{Bytes}
use hala_rs.Future.EventMap.{cancel, notify_all}
use hala_rs.Quic.Event.{stream_readable, stream_writable, Event-Eq}
use hala_rs.Quic.Api.{QuicheError, done, Quiche, into_io_error, quiche_error}
use hala_rs.Quic.Conn.{QuicConnState, Handled, with_conn}

-- The end of `handle_send_timout`: quiche's timer where it is due first and not too soon.
abbrev pub next_timeout : ℕ → Option ℕ → ℕ
next_timeout ping none = ping
next_timeout ping (some t) = if ltb t ping && ltb 10 t then t else ping

module _ {C : Type 0} where
  -- `notify_all` with the two events of a stream.
  abbrev pub cancel_stream : ℕ → QuicConnState C → QuicConnState C
  cancel_stream id s = record s {
    mediator = notify_all (stream_writable id ∷ stream_readable id ∷ []) cancel s.mediator;
  }

  unfoldable pub half_close : ℕ → ℕ → QuicConnState C → QuicConnState C
  unfolding notify_all insert
  half_close id now s =
      let s' = cancel_stream id s in
      record s' {
        state = record s'.state {
          half_closed_streams = insert id now s'.state.half_closed_streams;
        };
      }

  -- The `match` on the result of sending the fin flag, before the rest of the loop.
  abbrev pub after_fin :
      ℕ
      → ℕ
      → Outcome QuicheError ℕ × C
      → QuicConnState C
      → (QuicConnState C → List ℕ × QuicConnState C)
      → List ℕ × QuicConnState C
  after_fin id now (err done, c) s rest =
      let (pending, s') = rest (with_conn c s) in (id ∷ pending, s')
  after_fin id now (r, c) s rest = rest (half_close id now (with_conn c s))

  abbrev pub set_half_closed : List (ℕ × ℕ) → QuicConnState C → QuicConnState C
  set_half_closed h s = record s { state = record s.state { half_closed_streams = h } }

  abbrev pub set_ping_instant : ℕ → QuicConnState C → QuicConnState C
  set_ping_instant now s = record s { state = record s.state { send_ack_eliciting_instant = now } }

  abbrev pub after_recv :
      (C → Option (Bool × C)) → Outcome QuicheError (Bytes × Bool) × C → Option (Bool × C)
  after_recv again (ok (bs, false), c) = again c
  after_recv again (ok (bs, true), c) = some (true, c)
  after_recv again (err done, c) = some (false, c)
  after_recv again (err e, c) = some (true, c)

  -- The map after one stream was drained, before the rest of the loop.
  unfoldable pub after_resp :
      ℕ
      → ℕ
      → (QuicConnState C → Option (QuicConnState C))
      → QuicConnState C
      → Option (Bool × C)
      → Option (QuicConnState C)
  unfolding insert
  after_resp id t rest s none = none
  after_resp id t rest s (some (true, c)) = rest (with_conn c s)
  after_resp id t rest s (some (false, c)) =
      rest (set_half_closed (insert id t s.state.half_closed_streams) (with_conn c s))

  abbrev pub after_ping :
      ℕ → Outcome QuicheError (Unit {0}) × C → QuicConnState C → Handled C (Option ℕ)
  after_ping now (ok u, c) s = (ok none, set_ping_instant now (with_conn c s))
  after_ping now (err e, c) s = (err (into_io_error (quiche_error e)), with_conn c s)

module _ {C I : Type 0} (Q : Quiche C I) where
  -- The loop over the queue; it gives `send_fin_pending`.
  unfoldable pub drop_loop : ℕ → List ℕ → QuicConnState C → List ℕ × QuicConnState C
  unfolding half_close
  drop_loop now [] s = ([], s)
  drop_loop now (id ∷ ids) s =
      after_fin id now (Q.stream_send id [] true s.state.quiche_conn) s (λ s. drop_loop now ids s)

  unfoldable pub handle_dropping_streams : ℕ → QuicConnState C → Handled C (Unit {0})
  unfolding drop_loop
  handle_dropping_streams now s =
      let emptied = record s { state = record s.state { dropping_stream_queue = [] } } in
      let (pending, s') = drop_loop now s.state.dropping_stream_queue emptied in
      (
        ok tt,
        record s' {
          state = record s'.state {
            dropping_stream_queue = s'.state.dropping_stream_queue ++ pending;
          };
        },
      )

  -- `handle_half_closed_stream_resp`, on fuel: `true` where the stream is over.
  unfoldable pub handle_half_closed_stream_resp : ℕ → ℕ → C → Option (Bool × C)
  handle_half_closed_stream_resp zero id c = none
  handle_half_closed_stream_resp (suc fuel) id c =
      after_recv (λ c. handle_half_closed_stream_resp fuel id c)
        (Q.stream_recv id (Q.send_quantum c) c)

  -- The streams drained from the map, in the order of the list; those that are not over stay.
  unfoldable pub handle_half_closed_streams :
      List (ℕ × ℕ) → QuicConnState C → Option (QuicConnState C)
  unfolding handle_half_closed_stream_resp after_resp
  handle_half_closed_streams [] s = some s
  handle_half_closed_streams ((id, t) ∷ streams) s =
      after_resp id t (λ s. handle_half_closed_streams streams s) s
        (handle_half_closed_stream_resp (suc (Q.unread id s.state.quiche_conn)) id
          s.state.quiche_conn)

  unfoldable pub handle_send_timout : ℕ → QuicConnState C → Handled C (Option ℕ)
  handle_send_timout now s =
      let r = s.state in
      let elapsed = now - r.send_ack_eliciting_instant in
      if ltb r.ping_timeout elapsed
      then after_ping now (Q.send_ack_eliciting r.quiche_conn) s
      else (ok (some (next_timeout (r.ping_timeout - elapsed) (Q.timeout now r.quiche_conn))), s)
