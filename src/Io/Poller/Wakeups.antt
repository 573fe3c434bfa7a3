-- ===== src/Io/Poller/Wakeups.antt =====
-- Who is woken by `poll_once` of crates/io/src/mio/poller.rs after a call of `nonblocking_call`.
use hala_rs.Base.{
  ℕ, ◌≡◌, ◌⊎◌, inl, inr, refl, Bool, true, false, Option, none, some, List, [], ◌∷◌, ◌++◌, Outcome,
  ok, err, if◌then◌else◌, ◌==◌, ==_iff, Bool-cases, arith,
}
use hala_rs.Base.Maps.{Nat-Eq, lookup, lookup-insert, lookup-remove}
use hala_rs.Base.Sets.{contains}
use hala_rs.Io.Error.{ErrorKind, interrupted}
use hala_rs.Io.Poller.{
  Interest, to_read, to_write, Event, MioPoller, interests, of_events, of_timers, of_ticks, call,
  wake_read, wake_write, wake_flags, wake_event, wake_events, poll_once, add_waker, remove_waker,
  call_loop, nonblocking_call,
}

-- One of the two directions, reading for `true`: its interest and its table.
abbrev pub interest : Bool → Interest
interest true = to_read
interest false = to_write

abbrev pub table : Bool → MioPoller → List (ℕ × ℕ)
table true p = p.read_wakers
table false p = p.write_wakers

abbrev pub names : Bool → Interest → Bool
names true i = i.readable
names false i = i.writable

-- The events of one turn of the poller name the token in that direction.
abbrev pub wants : Bool → ℕ → List (ℕ × Interest) → Bool
wants d t [] = false
wants d t ((u, i) ∷ es) =
    let rest = wants d t es in if u == t then if names d i then true else rest else rest

abbrev flag : Bool → Event → Bool
flag true e = e.is_readable
flag false e = e.is_writable

-- One of the events is for the token and has the flag of that direction.
abbrev pub flagged : Bool → ℕ → List Event → Bool
flagged d t [] = false
flagged d t (e ∷ es) =
    let rest = flagged d t es in if e.token == t then if flag d e then true else rest else rest

-- What mio and the time wheel give names the token: an event does, or, for reading, an expired timer.
abbrev pub Told : Bool → ℕ → List Event → Option (List ℕ) → Type 0
Told d t events timers =
    (flagged d t events ≡ true)
    ⊎ ((d ≡ true) × ((ts : List ℕ) × (timers ≡ some ts) × (contains t ts ≡ true)))

wants-append :
    (d : Bool) (t : ℕ) (xs ys : List (ℕ × Interest))
    → (wants d t xs ≡ true) ⊎ (wants d t ys ≡ true)
    → wants d t (xs ++ ys) ≡ true
wants-append d t [] ys (inl e) = cc
wants-append d t [] ys (inr e) = e
wants-append d t ((u, i) ∷ xs) ys h = elim (Bool-cases (u == t)) [
  | inr n ↦ rw n (wants-append d t xs ys (rw n at h))
  | inl y ↦ elim (Bool-cases (names d i)) [
    | inl m ↦ rw (y, m) refl
    | inr m ↦ rw (y, m) (wants-append d t xs ys (rw (y, m) at h))
  ]
]

names-interests : (d : Bool) (e : Event) → flag d e ≡ true → names d (interests e) ≡ true
names-interests true e h = ground (arith, h)
names-interests false e h = ground (arith, h)

wants-of_events :
    (d : Bool) (t : ℕ) (es : List Event) → flagged d t es ≡ true → wants d t (of_events es) ≡ true
wants-of_events d t [] h = cc
wants-of_events d t (e ∷ es) h = ground (arith, h, names-interests d e, wants-of_events d t es)

wants-of_timers : (t : ℕ) (ts : List ℕ) → contains t ts ≡ true → wants true t (of_timers ts) ≡ true
wants-of_timers t [] h = cc
wants-of_timers t (u ∷ ts) h = ground (arith, h, wants-of_timers t ts)

Told-wants :
    (d : Bool) (t : ℕ) (events : List Event) (timers : Option (List ℕ))
    → Told d t events timers
    → wants d t (of_events events ++ of_ticks timers) ≡ true
Told-wants d t events timers (inl h) =
    wants-append d t (of_events events) (of_ticks timers) (inl (wants-of_events d t events h))
Told-wants d t events timers (inr (r, (ts, k, h))) =
    wants-append d t (of_events events) (of_ticks timers) (inr (rw (r, k) (wants-of_timers t ts h)))

contains-call :
    (w : ℕ) (o : Option ℕ) (ws : List ℕ) → contains w ws ≡ true → contains w (call o ws) ≡ true
contains-call w none ws e = e
contains-call w (some v) ws e = ground (arith, e)

wake_read-keeps :
    (t w : ℕ) (p : MioPoller) → contains w p.woken ≡ true → contains w (wake_read t p).woken ≡ true
unfolding wake_read
wake_read-keeps t w p e = contains-call w (lookup t p.read_wakers) p.woken e

wake_write-keeps :
    (t w : ℕ) (p : MioPoller) → contains w p.woken ≡ true → contains w (wake_write t p).woken ≡ true
unfolding wake_write
wake_write-keeps t w p e = contains-call w (lookup t p.write_wakers) p.woken e

wake_flags-keeps :
    (t w : ℕ) (r v : Bool) (p : MioPoller)
    → contains w p.woken ≡ true
    → contains w (wake_flags t r v p).woken ≡ true
wake_flags-keeps t w true true p e = wake_write-keeps t w (wake_read t p) (wake_read-keeps t w p e)
wake_flags-keeps t w true false p e = wake_read-keeps t w p e
wake_flags-keeps t w false true p e = wake_write-keeps t w p e
wake_flags-keeps t w false false p e = e

wake_events-keeps :
    (es : List (ℕ × Interest)) (w : ℕ) (p : MioPoller)
    → contains w p.woken ≡ true
    → contains w (wake_events es p).woken ≡ true
unfolding wake_events
wake_events-keeps [] w p e = e
wake_events-keeps ((t, i) ∷ es) w p e =
    wake_events-keeps es w (wake_event t i p) (wake_flags-keeps t w i.readable i.writable p e)

abbrev pick : Bool → Bool → Bool → Bool
pick true r v = r
pick false r v = v

-- The table of a direction behind an event.
lookup-wake_flags :
    (d : Bool) (u t : ℕ) (r v : Bool) (p : MioPoller)
    → lookup t (table d (wake_flags u r v p))
      ≡ (if u == t then if pick d r v then none else lookup t (table d p) else lookup t (table d p))
unfolding wake_read wake_write Nat-Eq
lookup-wake_flags true u t true true p = ground (arith, lookup-remove u t p.read_wakers)
lookup-wake_flags true u t true false p = ground (arith, lookup-remove u t p.read_wakers)
lookup-wake_flags true u t false true p = ground arith
lookup-wake_flags true u t false false p = ground arith
lookup-wake_flags false u t true true p = ground (arith, lookup-remove u t p.write_wakers)
lookup-wake_flags false u t true false p = ground arith
lookup-wake_flags false u t false true p = ground (arith, lookup-remove u t p.write_wakers)
lookup-wake_flags false u t false false p = ground arith

-- The waker that an event finds is called.
wake_flags-calls :
    (d : Bool) (t w : ℕ) (r v : Bool) (p : MioPoller)
    → pick d r v ≡ true
    → lookup t (table d p) ≡ some w
    → contains w (wake_flags t r v p).woken ≡ true
unfolding wake_read wake_write
wake_flags-calls true t w true true p e f =
    contains-call w (lookup t p.write_wakers) (call (lookup t p.read_wakers) p.woken)
      (rw f (ground arith))
wake_flags-calls true t w true false p e f = rw f (ground arith)
wake_flags-calls true t w false v p e f = cc
wake_flags-calls false t w true true p e f = rw f (ground arith)
wake_flags-calls false t w false true p e f = rw f (ground arith)
wake_flags-calls false t w r false p e f = cc

names-pick : (d : Bool) (i : Interest) → names d i ≡ pick d i.readable i.writable
names-pick true i = refl
names-pick false i = refl

none-stays :
    (d : Bool) (es : List (ℕ × Interest)) (t : ℕ) (p : MioPoller)
    → lookup t (table d p) ≡ none
    → lookup t (table d (wake_events es p)) ≡ none
unfolding wake_events
none-stays d [] t p e = e
none-stays d ((u, i) ∷ es) t p e =
    none-stays d es t (wake_event u i p)
      (ground (arith, e, lookup-wake_flags d u t i.readable i.writable p))

wake_events-calls :
    (d : Bool) (es : List (ℕ × Interest)) (t w : ℕ) (p : MioPoller)
    → wants d t es ≡ true
    → lookup t (table d p) ≡ some w
    → (contains w (wake_events es p).woken ≡ true) × (lookup t (table d (wake_events es p)) ≡ none)
unfolding wake_events
wake_events-calls d [] t w p e f = cc
wake_events-calls d ((u, i) ∷ es) t w p e f =
    let behind = lookup-wake_flags d u t i.readable i.writable p in
    elim (Bool-cases (u == t)) [
      | inr n ↦
          wake_events-calls d es t w (wake_event u i p) (rw n at e) (ground (arith, behind, n, f))
      | inl s ↦ elim (Bool-cases (names d i)) [
        | inr n ↦
            wake_events-calls d es t w (wake_event u i p) (rw (s, n) at e)
              (ground (arith, behind, names-pick d i, n, f))
        | inl y ↦
            let called : contains w (wake_event u i p).woken ≡ true =
              wake_flags-calls d u w i.readable i.writable p (ground (arith, names-pick d i, y))
                (rw ((==_iff u t).0 s) f) in
            (
              wake_events-keeps es w (wake_event u i p) called,
              none-stays d es t (wake_event u i p) (ground (arith, behind, names-pick d i, s, y)),
            )
      ]
    ]

call_loop-cases :
    {A : Type 0} (t : ℕ) (i : Interest) (rs : List (Outcome ErrorKind A)) (p q : MioPoller)
    (r : Outcome ErrorKind A)
    → call_loop t i rs p ≡ some (r, q)
    → ((a : A) × (r ≡ ok a) × (q ≡ (remove_waker t i p).1))
      ⊎ ((e : ErrorKind) × (r ≡ err e) × (q ≡ p))
call_loop-cases t i [] p q r e = cc
call_loop-cases t i (ok a ∷ rs) p q r e = inl (a, cc, cc)
call_loop-cases t i (err interrupted ∷ rs) p q r e = call_loop-cases t i rs p q r e
call_loop-cases t i (err k ∷ rs) p q r e = inr (k, cc, cc)

-- What a call leaves behind, and what the next turn of the poller does about it.
abbrev pub Served :
    {A : Type 0}
    → Bool
    → ℕ
    → ℕ
    → Outcome ErrorKind (Unit {0}) × MioPoller
    → MioPoller
    → Outcome ErrorKind A
    → Type 0
Served d t w next q (ok a) = lookup t (table d q) ≡ none
Served d t w next q (err e) =
    (lookup t (table d q) ≡ some w)
    × (contains w next.1.woken ≡ true)
    × (lookup t (table d next.1) ≡ none)

added :
    (d : Bool) (t w : ℕ) (p : MioPoller)
    → lookup t (table d (add_waker t (interest d) w p)) ≡ some w
unfolding add_waker Nat-Eq
added true t w p = ground (arith, lookup-insert t t w p.read_wakers)
added false t w p = ground (arith, lookup-insert t t w p.write_wakers)

removed :
    (d : Bool) (t : ℕ) (p : MioPoller) → lookup t (table d (remove_waker t (interest d) p).1) ≡ none
unfolding remove_waker Nat-Eq
removed true t p = ground (arith, lookup-remove t t p.read_wakers)
removed false t p = ground (arith, lookup-remove t t p.write_wakers)

-- A call that blocks is woken: where `nonblocking_call` ends with an error, its waker is registered for
-- the direction of the call, and the next turn of the poller whose events or expired timers name the
-- token in that direction calls it and takes it off; a call that succeeds leaves no waker behind.
pub blocked_call_is_woken :
    {A : Type 0} (d : Bool) (t w : ℕ) (rs : List (Outcome ErrorKind A)) (p q : MioPoller)
    (r : Outcome ErrorKind A) (events : List Event) (timers : Option (List ℕ))
    → nonblocking_call t (interest d) w rs p ≡ some (r, q)
    → Told d t events timers
    → Served d t w (poll_once (ok events) timers q) q r
unfolding nonblocking_call poll_once
blocked_call_is_woken d t w rs p q r events timers e f =
    elim (call_loop-cases t (interest d) rs (add_waker t (interest d) w p) q r e) [
      | inl (a, g, h) ↦ rw (g, h) (removed d t (add_waker t (interest d) w p))
      | inr (k, g, h) ↦
          let registered : lookup t (table d q) ≡ some w = rw h (added d t w p) in
          let turn =
            wake_events-calls d (of_events events ++ of_ticks timers) t w q
              (Told-wants d t events timers f) registered in
          rw g (registered, turn.0, turn.1)
    ]
