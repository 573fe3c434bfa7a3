-- ===== src/Tests/Poller.antt =====
-- The theorem on crates/io/src/mio/poller.rs where a read is interrupted, then blocks, and the socket
-- becomes readable.
use hala_rs.Base.{ℕ, ◌≡◌, refl, true, false, none, some, List, [], ◌∷◌, inl, Outcome, ok, err}
use hala_rs.Base.Maps.{lookup, Nat-Eq}
use hala_rs.Base.Sets.{contains}
use hala_rs.Io.Error.{ErrorKind, interrupted, would_block}
use hala_rs.Io.Poller.{Event, MioPoller, to_read, add_waker, nonblocking_call, poll_once}
use hala_rs.Io.Poller.Wakeups.{blocked_call_is_woken}

abbrev empty : MioPoller
empty = record { read_wakers = []; write_wakers = []; woken = [] }

abbrev results : List (Outcome ErrorKind ℕ)
results = err interrupted ∷ err would_block ∷ []

abbrev registered : MioPoller
registered = add_waker 4 to_read 9 empty

abbrev events : List Event
events = record { token = 4; is_readable = true; is_writable = false } ∷ []

blocked_call_is_woken_example :
    (lookup 4 registered.read_wakers ≡ some 9)
    × (contains 9 (poll_once (ok events) none registered).1.woken ≡ true)
    × (lookup 4 (poll_once (ok events) none registered).1.read_wakers ≡ none)
unfolding nonblocking_call
blocked_call_is_woken_example =
    blocked_call_is_woken true 4 9 results empty registered (err would_block) events none refl
      (inl refl)
