-- ===== src/Quic/Session/Stable.antt =====
-- A relation that the small updates of crates/net/quic/src/state/conn.rs keep is kept by every call.
use hala_rs.Base.{ℕ, ◌+◌, ◌≡◌, false, List, [], ◌∷◌, ◌++◌}
use hala_rs.Base.Sets.{contains, add, discard}
use hala_rs.Future.EventMap.{EventMap}
use hala_rs.Quic.Event.{Event}
use hala_rs.Quic.Conn.{QuicConnState, with_conn}
use hala_rs.Quic.Conn.Dropping.{set_half_closed, set_ping_instant}
use hala_rs.Quic.Conn.Calls.{set_outgoing}

module _ {C : Type 0} where
  abbrev pub with_mediator : EventMap Event → QuicConnState C → QuicConnState C
  with_mediator m s = record s { mediator = m }

  abbrev pub with_queue : List ℕ → QuicConnState C → QuicConnState C
  with_queue ids s = record s { state = record s.state { dropping_stream_queue = ids } }

  abbrev pub with_incoming : List ℕ → List ℕ → QuicConnState C → QuicConnState C
  with_incoming register ids s = record s {
    state = record s.state { register_incoming_stream_ids = register; incoming = ids };
  }

  abbrev pub with_outgoing : ℕ → List ℕ → QuicConnState C → QuicConnState C
  with_outgoing next ids s = record s {
    state = record s.state {
      lastest_outgoing_stream_id = next;
      register_outgoing_stream_ids = ids;
    };
  }

-- `P opened accepted conn` for the ids that were returned so far.
pub record Stable {C : Type 0} (P : List ℕ → List ℕ → QuicConnState C → Type 0) : Type 0 where
  pub conn_stable : (o a : List ℕ) (c : C) (s : QuicConnState C) → P o a s → P o a (with_conn c s)
  pub mediator_stable :
      (o a : List ℕ) (m : EventMap Event) (s : QuicConnState C)
      → P o a s
      → P o a (with_mediator m s)
  pub ping_stable :
      (o a : List ℕ) (t : ℕ) (s : QuicConnState C) → P o a s → P o a (set_ping_instant t s)
  pub queue_stable : (o a ids : List ℕ) (s : QuicConnState C) → P o a s → P o a (with_queue ids s)
  pub half_closed_stable :
      (o a : List ℕ) (h : List (ℕ × ℕ)) (s : QuicConnState C)
      → P o a s
      → P o a (set_half_closed h s)
  pub discard_stable :
      (o a : List ℕ) (id : ℕ) (s : QuicConnState C)
      → P o a s
      → P o a (set_outgoing (discard id s.state.register_outgoing_stream_ids) s)
  pub incoming_stable :
      (o a : List ℕ) (id : ℕ) (s : QuicConnState C)
      → contains id s.state.register_incoming_stream_ids ≡ false
      → P o a s
      → P o a (
          with_incoming
            (add id s.state.register_incoming_stream_ids)
            (s.state.incoming ++ (id ∷ []))
            s)
  pub open_stable :
      (o a : List ℕ) (s : QuicConnState C)
      → P o a s
      → let next = s.state.lastest_outgoing_stream_id in
        P
          (o ++ (next ∷ []))
          a
          (with_outgoing (next + 4) (add next s.state.register_outgoing_stream_ids) s)
  pub accept_stable :
      (o a : List ℕ) (id : ℕ) (ids : List ℕ) (s : QuicConnState C)
      → s.state.incoming ≡ id ∷ ids
      → P o a s
      → P o (a ++ (id ∷ [])) (with_incoming s.state.register_incoming_stream_ids ids s)
