-- ===== src/Quic/Listener/Tasks.antt =====
-- The reads of the connections of crates/net/quic/src/state/listener.rs that are in the batcher.
use hala_rs.Base.{
  ℕ, zero, suc, ◌+◌, ◌<◌, ◌≡◌, ◌⊎◌, inl, inr, refl, ap, Bool, true, false, some, List, [], ◌∷◌,
  ◌++◌, All, All-append, Bool-cases, get_elem?, arith, ◌==◌, if◌then◌else◌,
}
use hala_rs.Base.Sets.{contains, contains-append, Nodup, Nodup-snoc}
use hala_rs.Quic.Listener.{Peer}
use hala_rs.Quic.Listener.Calls.{take_task}

abbrev pub handles : List Peer → List ℕ
handles [] = []
handles (p ∷ ps) = p.handle ∷ handles ps

handles-append : (ps qs : List Peer) → handles (ps ++ qs) ≡ handles ps ++ handles qs
handles-append [] qs = refl
handles-append (p ∷ ps) qs = ap (◌∷◌ p.handle) (handles-append ps qs)

contains-take_task :
    (ps : List Peer) (h j : ℕ)
    → Nodup (handles ps)
    → contains j (handles (take_task ps h)) ≡ (if h == j then false else contains j (handles ps))
contains-take_task [] h j n = ground arith
contains-take_task (p ∷ ps) h j n = ground (arith, n.0, contains-take_task ps h j n.1)

Nodup-take_task : (ps : List Peer) (h : ℕ) → Nodup (handles ps) → Nodup (handles (take_task ps h))
Nodup-take_task [] h n = tt
Nodup-take_task (p ∷ ps) h n = elim (Bool-cases (p.handle == h)) [
  | inl e ↦ rw e n.1
  | inr e ↦
      rw e (ground (arith, n.0, e, contains-take_task ps h p.handle n.1), Nodup-take_task ps h n.1)
]

All-take_task :
    (P : ℕ → Type 0) (ps : List Peer) (h : ℕ)
    → All P (handles ps)
    → All P (handles (take_task ps h))
All-take_task P [] h a = tt
All-take_task P (p ∷ ps) h a = elim (Bool-cases (p.handle == h)) [
  | inl e ↦ rw e a.1
  | inr e ↦ rw e (a.0, All-take_task P ps h a.1)
]

handle_of : (P : ℕ → Type 0) (p q : Peer) → some q ≡ some p → P q.handle → P p.handle
handle_of P p q e h = let same : q.handle ≡ p.handle = cc in rw same at h

pub All-get_elem? :
    (P : ℕ → Type 0) (ps : List Peer) (i : ℕ) (p : Peer)
    → get_elem? ps i ≡ some p
    → All P (handles ps)
    → P p.handle
All-get_elem? P [] i p e a = absurd (cc)
All-get_elem? P (q ∷ ps) zero p e a = handle_of P p q e a.0
All-get_elem? P (q ∷ ps) (suc i) p e a = All-get_elem? P ps i p e a.1

below-append : (m : ℕ) (xs : List ℕ) → All (λ h. h < m) xs → All (λ h. h < m + 1) xs
below-append m [] a = tt
below-append m (x ∷ xs) a = (omega (arith, a.0), below-append m xs a.1)

below-unseen : (m : ℕ) (xs : List ℕ) → All (λ h. h < m) xs → contains m xs ≡ false
below-unseen m [] a = refl
below-unseen m (x ∷ xs) a = ground (arith, a.0, below-unseen m xs a.1)

pub record Inv (closed : Bool) (tasks : List Peer) (made : ℕ) (failed : List ℕ) : Type 0 where
  pub distinct : Nodup (handles tasks)
  pub below : All (λ h. h < made) (handles tasks)
  pub covered :
      closed ≡ false
      → (h : ℕ) → h < made
      → (contains h (handles tasks) ≡ true) ⊎ (contains h failed ≡ true)

-- A task enters the batcher for a handle that has none.
pub enter-Inv :
    (closed : Bool) (tasks : List Peer) (p : Peer) (made : ℕ) (failed : List ℕ)
    → Inv closed tasks made failed
    → p.handle ≡ made
    → Inv closed (tasks ++ (p ∷ [])) (made + 1) failed
enter-Inv closed tasks p made failed h e = record {
  distinct =
      rw (handles-append tasks (p ∷ []), e)
        (Nodup-snoc (handles tasks) made h.distinct (below-unseen made (handles tasks) h.below));
  below = rw (handles-append tasks (p ∷ [])) (
      All-append (λ h. h < made + 1) (handles tasks) (p.handle ∷ [])
        (below-append made (handles tasks) h.below) (omega (arith, e), tt));
  covered = λ k j l. ground (
    arith,
    h.covered k j,
    e,
    handles-append tasks (p ∷ []),
    contains-append j (handles tasks) (p.handle ∷ []),
  );
}

-- A task whose read has failed leaves the batcher.
pub fail-Inv :
    (closed : Bool) (tasks : List Peer) (h made : ℕ) (failed : List ℕ)
    → Inv closed tasks made failed
    → Inv closed (take_task tasks h) made (h ∷ failed)
fail-Inv closed tasks h made failed inv = record {
  distinct = Nodup-take_task tasks h inv.distinct;
  below = All-take_task (λ j. j < made) tasks h inv.below;
  covered = λ k j l. ground (arith, inv.covered k j, contains-take_task tasks h j inv.distinct);
}

-- A task whose read has succeeded leaves the batcher and is entered again.
pub again-Inv :
    (closed : Bool) (tasks : List Peer) (p : Peer) (made : ℕ) (failed : List ℕ)
    → Inv closed tasks made failed
    → p.handle < made
    → Inv closed (take_task tasks p.handle ++ (p ∷ [])) made failed
again-Inv closed tasks p made failed inv l =
    let rest = take_task tasks p.handle in
    let gone : contains p.handle (handles rest) ≡ false =
      ground (arith, contains-take_task tasks p.handle p.handle inv.distinct) in
    record {
      distinct =
          rw (handles-append rest (p ∷ []))
            (Nodup-snoc (handles rest) p.handle (Nodup-take_task tasks p.handle inv.distinct) gone);
      below = rw (handles-append rest (p ∷ [])) (
          All-append (λ h. h < made) (handles rest) (p.handle ∷ [])
            (All-take_task (λ h. h < made) tasks p.handle inv.below) (l, tt));
      covered = λ k j m. ground (
        arith,
        inv.covered k j,
        contains-take_task tasks p.handle j inv.distinct,
        handles-append rest (p ∷ []),
        contains-append j (handles rest) (p.handle ∷ []),
      );
    }

-- A listener that is closed lets the task of a read that has ended go.
pub drop-Inv :
    (tasks : List Peer) (h made : ℕ) (failed : List ℕ)
    → Inv true tasks made failed
    → Inv true (take_task tasks h) made failed
drop-Inv tasks h made failed inv = record {
  distinct = Nodup-take_task tasks h inv.distinct;
  below = All-take_task (λ j. j < made) tasks h inv.below;
  covered = λ k j l. cc;
}
