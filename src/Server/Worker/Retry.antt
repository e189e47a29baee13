-- ===== src/Server/Worker/Retry.antt =====
-- src/server.rs, `spawn_print_worker` and `sleep_cancelable`: the wait between two attempts.
use ipp_printer_app.Base.{
  ==_iff, Bool-cases, List, Option, [], arith, false, inl, inr, length, min, refl, suc, zero, ℕ,
  ◌*◌, ◌+◌, ◌-◌, ◌/◌, ◌<◌, ◌==◌, ◌^◌, ◌∷◌, ◌≡◌,
}
use native.Mathlib.Nat.{pow-suc}
use ipp_printer_app.Job.{is_canceled}
use ipp_printer_app.Server.{AppState}
use ipp_printer_app.Server.Worker.{
  check, sleep, backoff_max, backoff_start, Worker, Input, at, act, step,
}
use ipp_printer_app.Server.Worker.Races.{run_alone}

-- What the wait leaves behind: the backoff doubled up to its limit, and the next attempt.
abbrev pub rested : Worker → Worker
rested w = record w { backoff = min (w.backoff * 2) backoff_max; phase = check }

-- A wait of `left` milliseconds whose job is not canceled makes one nap for each started 250 ms and one
-- last look at the flag, and then leads to the next attempt with the backoff doubled up to 30 s.
pub sleep_rests :
    (is : List Input) (left : ℕ) (w : Worker) (st : AppState)
    → is_canceled w.job st.jobs ≡ false
    → length is ≡ (left + 249) / 250 + 1
    → run_alone is (at (sleep left) w, st) ≡ (rested w, st)
unfolding run_alone step act
sleep_rests [] left w st down count = absurd (omega arith)
sleep_rests (i ∷ is) left w st down count = elim (Bool-cases (left == 0)) [
  | inl over ↦ rw (down, over) (run_none is (omega (arith, (==_iff left 0).0 over)) (rested w, st))
  | inr more ↦
      let some_left : 0 < left = ground arith in
      rw (down, more) (sleep_rests is (left - min left 250) w st down (omega arith))
]
  where
    run_none : (is : List Input) → length is ≡ 0 → (c : Worker × AppState) → run_alone is c ≡ c
    run_none [] e c = refl
    run_none (j ∷ is) e c = absurd (omega arith)

-- The backoff before attempt `m + 2`.
pub nth_backoff : Option ℕ → ℕ → ℕ
nth_backoff retry_ms zero = min (backoff_start retry_ms) backoff_max
nth_backoff retry_ms (suc m) = min (nth_backoff retry_ms m * 2) backoff_max

-- The waits double from the configured start and never exceed 30 s.
pub nth_backoff_lem :
    (retry_ms : Option ℕ) (m : ℕ)
    → nth_backoff retry_ms m ≡ min (backoff_start retry_ms * 2 ^ m) backoff_max
unfolding nth_backoff
nth_backoff_lem retry_ms zero = omega arith
nth_backoff_lem retry_ms (suc m) = rw (pow-suc 2 m) (omega (arith, nth_backoff_lem retry_ms m))
