-- ===== src/Tests/Events.antt =====
-- The theorems on crates/future/src/event_map.rs at concrete inputs.
use hala_rs.Base.{ℕ, ◌≡◌, refl, true, none, some, [], ◌∷◌, arith}
use hala_rs.Base.Maps.{Nat-Eq, lookup}
use hala_rs.Future.EventMap.{
  EventMap, default, on, cancel, Wait, pending, poll, poll_reason, notify_one, notify_any,
}
use hala_rs.Future.EventMap.Laws.{notify_each, poll-notify_one}
use hala_rs.Future.EventMap.Broadcast.{notify_any_lem}

abbrev waiting : EventMap ℕ
waiting = record (default ℕ) { wakers = (5, 1) ∷ (6, 2) ∷ [] }

abbrev wait : Wait ℕ
wait = record { event = 7; waiter = 3; guard = true }

notify_any_lem_example :
    (lookup 6 (notify_any cancel waiting).wakers ≡ none)
    × ((w : ℕ) → lookup 6 waiting.wakers ≡ some w → (notify_any cancel waiting).reasons w ≡ cancel)
notify_any_lem_example = notify_any_lem cancel waiting 6

elsewhere : (x : ℕ) → lookup x waiting.wakers ≡ some 3 → Nat-Eq.beq x 7 ≡ true
unfolding lookup Nat-Eq
elsewhere x e = ground (arith, e)

poll-notify_one_example :
    let (first, w', m1) = poll wait waiting in
    let m2 = notify_each ((6, cancel) ∷ (8, on) ∷ []) m1 in
    let (found, m3) = notify_one 7 on m2 in
    (first ≡ pending)
    × ((poll w' m2).0 ≡ pending)
    × (lookup 7 m2.wakers ≡ some 3)
    × (found ≡ true)
    × ((poll w' m3).0 ≡ poll_reason on)
    × (lookup 7 m3.wakers ≡ none)
    × (m3.woken ≡ 3 ∷ m2.woken)
unfolding Nat-Eq
poll-notify_one_example =
    poll-notify_one wait waiting ((6, cancel) ∷ (8, on) ∷ []) on refl refl elsewhere
      (refl, (refl, tt))
