-- ===== src/Tests/Listener.antt =====
-- The theorems on `QuicListenerState` of crates/net/quic/src/state/listener.rs: a client that has its
-- token arrives, and packets of a known connection come.
use hala_rs.Base.{
  ℕ, ◌≡◌, ◌⊎◌, ◌<◌, refl, true, false, none, some, List, [], ◌∷◌, ◌++◌, ok, err, update,
}
use hala_rs.Base.Maps.{Text-Eq, Nat-Eq, lookup, insert}
use hala_rs.Base.Sets.{contains, Nodup}
use hala_rs.Io.ReadBuf.{Bytes}
use hala_rs.Quic.Conn
use hala_rs.Quic.Acceptor.{initial, another, Server, RecvInfo, mint_token}
use hala_rs.Quic.Listener.{Peer, QuicListenerState, new, ListenerEvent-Eq}
use hala_rs.Quic.Listener.Runs.{Call, writing, accepting, reading, closing, run, perform, start}
use hala_rs.Quic.Listener.Accept.{closed_after, accepts_in_order}
use hala_rs.Quic.Listener.Waits.{Heeded, accept_waits_on_empty}
use hala_rs.Quic.Listener.Tasks.{handles}
use hala_rs.Quic.Listener.Reads.{one_read_per_conn}
use hala_rs.Quic.Listener.Closings.{batcher_closed_twice}
use hala_rs.Quic.Listener.Loop.{Round, Served, stopped, recv_event_loop, malformed_packet_stops}
use hala_rs.Io.Error.{other}
use hala_rs.Quic.Api.{other_error}
use hala_rs.Tests.Quic.{quiet, peer, header, server}

abbrev info : RecvInfo
info = record { from = peer; to = peer }

-- Every packet is that of a client with its token.
abbrev newcomers : Server ℕ ℕ
newcomers = record server {
  header_from_slice = λ bs. ok (record header { ty = initial (mint_token header peer) });
}

abbrev known : Server ℕ ℕ
known = record server { header_from_slice = λ bs. ok (record header { ty = another }) }

abbrev id_of : ℕ → Bytes
id_of c = 5 ∷ 6 ∷ []

abbrev calls : List (Call ℕ)
calls = writing 0 50 (1 ∷ 2 ∷ []) 2 info ∷ reading 0 (ok ([], 0)) ∷ accepting 3 ∷ accepting 3 ∷ []

accepts_in_order_example :
    (rest : List Peer) × ((run quiet newcomers id_of calls (start ℕ)).arrived
      ≡ (run quiet newcomers id_of calls (start ℕ)).accepted ++ rest)
    × (((closed_after quiet newcomers id_of calls ≡ false)
          × ((run quiet newcomers id_of calls (start ℕ)).listener.incoming ≡ some rest))
        ⊎ ((closed_after quiet newcomers id_of calls ≡ true)
            × ((run quiet newcomers id_of calls (start ℕ)).listener.incoming ≡ none)))
accepts_in_order_example = accepts_in_order quiet newcomers id_of calls

accept_waits_on_empty_example :
    ((run quiet newcomers id_of (accepting 3 ∷ []) (start ℕ)).listener.incoming ≡ some [])
    × ((run quiet newcomers id_of (accepting 3 ∷ []) (start ℕ)).listener.closed ≡ false)
    × Heeded {I = ℕ} 3
        (writing 0 50 (1 ∷ 2 ∷ []) 2 info)
        (perform quiet newcomers id_of
          (writing 0 50 (1 ∷ 2 ∷ []) 2 info)
          (run quiet newcomers id_of (accepting 3 ∷ []) (start ℕ))).listener
unfolding run lookup insert ListenerEvent-Eq
accept_waits_on_empty_example =
    accept_waits_on_empty quiet newcomers id_of (accepting 3 ∷ []) 3
      (writing 0 50 (1 ∷ 2 ∷ []) 2 info) refl

one_read_per_conn_example :
    Nodup (handles (run quiet newcomers id_of calls (start ℕ)).listener.conns_read)
    × (((run quiet newcomers id_of calls (start ℕ)).listener.closed ≡ true)
        ⊎ ((h : ℕ)
            → h < (run quiet newcomers id_of calls (start ℕ)).listener.made
            → (contains h (handles (run quiet newcomers id_of calls (start ℕ)).listener.conns_read)
                ≡ true)
              ⊎ (contains h (run quiet newcomers id_of calls (start ℕ)).failed ≡ true)))
one_read_per_conn_example = one_read_per_conn quiet newcomers id_of calls

abbrev client : Peer
client = record { scid = 5 ∷ 6 ∷ []; handle = 0 }

abbrev serving : QuicListenerState ℕ
serving = record (new ℕ) {
  conns = (5 ∷ 6 ∷ [], client) ∷ [];
  states = update (λ h. none) 0 (some (Conn.new quiet 0 50 5 0));
  made = 1;
}

batcher_closed_twice_example :
    ((run quiet newcomers id_of (closing ∷ accepting 3 ∷ []) (start ℕ)).listener.closed ≡ true)
    × ((run quiet newcomers id_of (closing ∷ accepting 3 ∷ []) (start ℕ)).listener.conns_read_closed
        ≡ false)
batcher_closed_twice_example =
    batcher_closed_twice quiet newcomers id_of (closing ∷ accepting 3 ∷ [])

-- No packet can be read.
abbrev unreadable : Server ℕ ℕ
unreadable = record server { header_from_slice = λ bs. err (other_error 1) }

abbrev packet : Round
packet = record { now = 0; received = ok (1 ∷ 2 ∷ [], 2, info); sent = ok tt }

abbrev idle_server : Served ℕ ℕ
idle_server = record { listener = new ℕ; sent_packets = [] }

malformed_packet_stops_example :
    recv_event_loop quiet unreadable id_of 50 (packet ∷ packet ∷ []) idle_server
    ≡ (stopped other, idle_server)
malformed_packet_stops_example =
    malformed_packet_stops quiet unreadable id_of 50 0 2 (1 ∷ 2 ∷ []) info (ok tt) (packet ∷ [])
      idle_server (other_error 1) refl refl
