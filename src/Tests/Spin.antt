-- ===== src/Tests/Spin.antt =====
-- The theorem on crates/sync/src/spin.rs in a run of two threads: thread 0 locks, and thread 1 tries.
use hala_rs.Base.{ℕ, ◌≡◌, ◌≢◌, ◌⊎◌, refl, true, arith, update}
use hala_rs.Sync.Spin.{
  SpinMutex, Pc, idle, trying, acquired, holding, panicked, Move, call_lock, exchange, set_guard,
  System, run, Reach, start, later,
}
use hala_rs.Sync.Spin.Exclusion.{holding_excludes}

abbrev locked : System ℕ
locked = record {
  lock = record { flag = true; guard = 8; value = 3 };
  pc = update (update (update (update (λ t. idle) 0 trying) 0 acquired) 1 trying) 0 (holding 8);
}

locked-Reach : Reach 3 locked
locked-Reach =
    later (later (later (later start (run 0 call_lock)) (run 0 (exchange refl))) (run 1 call_lock))
      (run 0 (set_guard 8 (λ e. absurd (omega (arith, e))) refl))

holding_excludes_example :
    ((u q : ℕ) → locked.pc u ≡ holding q → u ≡ 0)
    × ((u : ℕ) (l : SpinMutex ℕ) (p : Pc)
        → Move locked.lock (locked.pc u) l p
        → (l.value ≡ locked.lock.value) ⊎ (u ≡ 0))
    × ((u : ℕ) → locked.pc u ≢ panicked)
holding_excludes_example = holding_excludes locked-Reach 0 8 refl
