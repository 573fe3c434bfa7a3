-- ===== src/Tests/Client.antt =====
-- The theorems on the client of crates/net/quic: a handshake of one round, and a pool with a connection
-- that is usable.
use hala_rs.Base.{ℕ, ◌≡◌, refl, arith, true, false, List, [], ◌∷◌, Outcome, ok, err}
use hala_rs.Io.Error.{ErrorKind, connection_refused}
use hala_rs.Io.ReadBuf.{Bytes}
use hala_rs.Quic.Conn
use hala_rs.Quic.Conn.{QuicConnState}
use hala_rs.Quic.Connector.{QuicConnectorState, Exchange, handshake_loop}
use hala_rs.Quic.Connector.Connect.{handshake_loop_lem}
use hala_rs.Quic.Pool.{RawConnPool, find_avalid_conn, open_stream}
use hala_rs.Quic.Pool.Bounds.{Chosen, Bounded, open_stream_lem}
use hala_rs.Tests.Quic.{quiet, peer}

abbrev client : QuicConnectorState ℕ
client = record { quiche_conn = 0; ping_timeout = 50 }

abbrev rounds : List Exchange
rounds = record { sent = ok tt; received = ok (1 ∷ 2 ∷ [], record { from = peer; to = peer }) } ∷ []

handshake_loop_lem_example :
    (quiet.is_established 0 ≡ true) × (quiet.is_closed 0 ≡ false) × (client.ping_timeout ≡ 50)
unfolding handshake_loop
handshake_loop_lem_example = handshake_loop_lem quiet 10 rounds client (ok client) refl

abbrev pool : RawConnPool ℕ
pool = record { max_conns = 1; conns = (5 ∷ 6 ∷ [], Conn.new quiet 0 50 4 0) ∷ [] }

abbrev refused : Outcome ErrorKind (Bytes × QuicConnState ℕ)
refused = err connection_refused

open_stream_lem_example :
    Chosen quiet refused pool (find_avalid_conn quiet refused pool)
    × Bounded quiet 1 (find_avalid_conn quiet refused pool) (open_stream quiet refused pool)
open_stream_lem_example = open_stream_lem quiet refused pool (omega arith)
