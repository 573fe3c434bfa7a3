-- ===== src/Io/Poller.antt =====
-- crates/io/src/mio/poller.rs: the wakers of `MioPoller`, one call at a time, `nonblocking_call` and
-- `timeout` of crates/io/src/mio/driver.rs, and crates/io/src/mio/timer.rs. Tokens, wakers and times
-- are numbers.
pub mod Wakeups
use hala_rs.Base.{
  ℕ, ◌-◌, Bool, true, false, Option, none, some, List, [], ◌∷◌, ◌++◌, Outcome, ok, err, ltb, leb,
  if◌then◌else◌,
}
use hala_rs.Base.Maps.{Nat-Eq, lookup, remove, insert}
use hala_rs.Io.Error.{ErrorKind, interrupted, would_block}

-- The flags of `Interest`.
pub record Interest : Type 0 where
  pub readable : Bool
  pub writable : Bool

abbrev pub to_read : Interest
to_read = record { readable = true; writable = false }

abbrev pub to_write : Interest
to_write = record { readable = false; writable = true }

abbrev pub both : Interest
both = record { readable = true; writable = true }

-- `mio::event::Event`
pub record Event : Type 0 where
  pub token : ℕ
  pub is_readable : Bool
  pub is_writable : Bool

-- The waker tables of `RawMioPoller`, and the wakers that were called, the last first.
pub record MioPoller : Type 0 where
  pub read_wakers : List (ℕ × ℕ)
  pub write_wakers : List (ℕ × ℕ)
  pub woken : List ℕ

abbrev pub interests : Event → Interest
interests e = if e.is_readable then if e.is_writable then both else to_read else to_write

abbrev pub of_events : List Event → List (ℕ × Interest)
of_events [] = []
of_events (e ∷ es) = (e.token, interests e) ∷ of_events es

abbrev pub of_timers : List ℕ → List (ℕ × Interest)
of_timers [] = []
of_timers (t ∷ ts) = (t, to_read) ∷ of_timers ts

abbrev pub of_ticks : Option (List ℕ) → List (ℕ × Interest)
of_ticks none = []
of_ticks (some ts) = of_timers ts

abbrev pub call : Option ℕ → List ℕ → List ℕ
call none ws = ws
call (some w) ws = w ∷ ws

unfoldable pub wake_read : ℕ → MioPoller → MioPoller
unfolding remove lookup
wake_read t p = record p {
  read_wakers = remove t p.read_wakers;
  woken = call (lookup t p.read_wakers) p.woken;
}

unfoldable pub wake_write : ℕ → MioPoller → MioPoller
unfolding remove lookup
wake_write t p = record p {
  write_wakers = remove t p.write_wakers;
  woken = call (lookup t p.write_wakers) p.woken;
}

abbrev pub wake_flags : ℕ → Bool → Bool → MioPoller → MioPoller
wake_flags t readable writable p =
    let r = if readable then wake_read t p else p in if writable then wake_write t r else r

abbrev pub wake_event : ℕ → Interest → MioPoller → MioPoller
wake_event t i p = wake_flags t i.readable i.writable p

unfoldable pub wake_events : List (ℕ × Interest) → MioPoller → MioPoller
unfolding wake_read wake_write
wake_events [] p = p
wake_events ((t, i) ∷ es) p = wake_events es (wake_event t i p)

-- With what mio's `poll` gives, and what `next_tick` of the time wheel gives.
unfoldable pub poll_once :
    Outcome ErrorKind (List Event)
    → Option (List ℕ)
    → MioPoller
    → Outcome ErrorKind (Unit {0}) × MioPoller
unfolding wake_events
poll_once (err e) timers p = (err e, p)
poll_once (ok events) timers p = (ok tt, wake_events (of_events events ++ of_ticks timers) p)

unfoldable pub add_waker : ℕ → Interest → ℕ → MioPoller → MioPoller
unfolding insert
add_waker t i w p =
    if i.readable
    then record p { read_wakers = insert t w p.read_wakers }
    else if i.writable
    then record p { write_wakers = insert t w p.write_wakers }
    else p

unfoldable pub remove_waker : ℕ → Interest → MioPoller → Option ℕ × MioPoller
unfolding lookup remove
remove_waker t i p =
    if i.readable
    then (lookup t p.read_wakers, record p { read_wakers = remove t p.read_wakers })
    else if i.writable
    then (lookup t p.write_wakers, record p { write_wakers = remove t p.write_wakers })
    else (none, p)

-- The wakers of `deregister`, behind the calls of mio's registry.
unfoldable pub deregister : ℕ → MioPoller → MioPoller
unfolding remove_waker
deregister t p = let (w, q) = remove_waker t both p in record q { woken = call w q.woken }

-- `nonblocking_call` over the results of the system call; `none` if they are used up.
abbrev pub call_loop :
    {A : Type 0}
    → ℕ
    → Interest
    → List (Outcome ErrorKind A)
    → MioPoller
    → Option (Outcome ErrorKind A × MioPoller)
call_loop t i [] p = none
call_loop t i (ok r ∷ rs) p = some (ok r, (remove_waker t i p).1)
call_loop t i (err interrupted ∷ rs) p = call_loop t i rs p
call_loop t i (err e ∷ rs) p = some (err e, p)

unfoldable pub nonblocking_call :
    {A : Type 0}
    → ℕ
    → Interest
    → ℕ
    → List (Outcome ErrorKind A)
    → MioPoller
    → Option (Outcome ErrorKind A × MioPoller)
unfolding add_waker remove_waker
nonblocking_call t i w rs p = call_loop t i rs (add_waker t i w p)

-- `MioTimer`, with the tick that the time wheel gave it.
pub record MioTimer : Type 0 where
  pub start_instant : Option ℕ
  pub duration : ℕ
  pub tick_duration : Option ℕ
  pub timewheel_ticks : Option ℕ

abbrev pub new_timer : ℕ → MioTimer
new_timer d = record {
  start_instant = none;
  duration = d;
  tick_duration = none;
  timewheel_ticks = none;
}

-- `start` at the time `now`, with what `HashedTimeWheel::new_timer` gives.
unfoldable pub start : ℕ → ℕ → Option ℕ → MioTimer → Bool × MioTimer
start now tick ticks m = (
  elim ticks [ none ↦ false | some t ↦ true ],
  record m { start_instant = some now; tick_duration = some tick; timewheel_ticks = ticks },
)

abbrev pub expired_since : ℕ → ℕ → Option ℕ → MioTimer → Option Bool
expired_since now since tick m =
    if leb m.duration (now - since)
    then some true
    else elim tick [ none ↦ none | some d ↦ some (ltb (m.duration - (now - since)) d) ]

-- `is_expired` at the time `now`; `none` is the panic of `expect`.
unfoldable pub is_expired : ℕ → MioTimer → Option Bool
is_expired now m = elim m.start_instant [
  | none ↦ some false
  | some since ↦ expired_since now since m.tick_duration m
]
