-- ===== src/Tests/Udp.antt =====
-- The theorem on crates/net/udp/src/group.rs for two sockets: a datagram comes to the second one, and
-- then both would block.
use hala_rs.Base.{ℕ, ◌≡◌, refl, none, some, List, [], ◌∷◌, Outcome, ok, err}
use hala_rs.Base.Maps.{Nat-Eq, lookup, insert}
use hala_rs.Io.Error.{ErrorKind, would_block}
use hala_rs.Udp.Group.{UdpGroup, Opening, pending, ready, bind, recv_from, send_to, write_path}
use hala_rs.Udp.Group.Bind.{AllAgree, AllServed, bind_lem}
use hala_rs.Udp.Group.Exchange.{bound, received, exchange_lem}

abbrev socket : ℕ → ℕ → Opening ℕ
socket h laddr = record { opened = ok h; registered = ok tt; local_addr = ok laddr }

abbrev sockets : List (Opening ℕ)
sockets = socket 7 80 ∷ socket 8 81 ∷ []

abbrev fresh : UdpGroup ℕ
fresh = record {
  fds = (81, 8) ∷ (80, 7) ∷ [];
  laddrs = (8, 81) ∷ (7, 80) ∷ [];
  batching_read_buf = none;
  batching_write_buf = none;
  read_tasks = (7, 80) ∷ (8, 81) ∷ [];
  write_tasks = (7, 80) ∷ (8, 81) ∷ [];
}

abbrev arrival : List (ℕ × Outcome ErrorKind (ℕ × ℕ))
arrival = (7, err would_block) ∷ (8, ok (3, 90)) ∷ []

abbrev silence : List (ℕ × Outcome ErrorKind (ℕ × ℕ))
silence = (7, err would_block) ∷ (8, err would_block) ∷ []

abbrev used : UdpGroup ℕ
used = (recv_from 0 arrival fresh).1

exchange_lem_example :
    let r = recv_from 1 silence used in
    let w = send_to (5 ∷ []) 90 ((7, ok 1) ∷ []) used in
    ((r.0 ≡ pending) × (r.1.batching_read_buf ≡ some 1))
    × (((w.0 ≡ ready 7 (ok (1, write_path 80 90))) × (w.1.batching_write_buf ≡ none))
        × AllServed used fresh.fds)
unfolding bind recv_from insert lookup Nat-Eq
exchange_lem_example =
    exchange_lem sockets refl (received bound 0 arrival) 1 silence (5 ∷ []) 90 ((7, ok 1) ∷ [])

bind_lem_example : (g : UdpGroup ℕ) × ((some fresh ≡ some g) × (AllAgree g × AllServed g g.fds))
unfolding bind insert lookup Nat-Eq
bind_lem_example = bind_lem sockets refl
