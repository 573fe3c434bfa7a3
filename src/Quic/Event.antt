-- ===== src/Quic/Event.antt =====
-- crates/net/quic/src/state/conn.rs: the events of a connection.
use hala_rs.Base.{ℕ, ◌≡◌, refl, ap, sym, ◌∙◌, Bool, true, false, ◌==◌, ==_iff, ==_self}
use hala_rs.Base.Maps.{Eq}

-- `QuicConnStateEvent`. Every event of one `EventMap` has the `scid` of the connection that owns it.
pub data Event : Type 0 where
  readable : Event
  writable : Event
  stream_readable : ℕ → Event
  stream_writable : ℕ → Event
  accept_event : Event

abbrev pub same_event : Event → Event → Bool
same_event readable readable = true
same_event writable writable = true
same_event (stream_readable i) (stream_readable j) = i == j
same_event (stream_writable i) (stream_writable j) = i == j
same_event accept_event accept_event = true
same_event _ _ = false

pub same_event_self : (a : Event) → same_event a a ≡ true
same_event_self readable = refl
same_event_self writable = refl
same_event_self (stream_readable i) = ==_self i
same_event_self (stream_writable i) = ==_self i
same_event_self accept_event = refl

pub same_event-eq : (a b : Event) → same_event a b ≡ true → a ≡ b
same_event-eq readable readable h = refl
same_event-eq writable writable h = refl
same_event-eq (stream_readable i) (stream_readable j) h = ap stream_readable ((==_iff i j).0 h)
same_event-eq (stream_writable i) (stream_writable j) h = ap stream_writable ((==_iff i j).0 h)
same_event-eq accept_event accept_event h = refl
same_event-eq a b h = cc

instance unfoldable pub Event-Eq : Eq Event
Event-Eq = record {
  beq = same_event;
  beq_iff = λ a b. (same_event-eq a b, λ p. ap (λ t. same_event a t) (sym p) ∙ same_event_self a);
}
