-- ===== src/Logger/Signal.antt =====
-- src/db/logger.rs: `signal_shutdown` ends, and the worker ends when it is told to.
use ait.Base.{
  ℕ, zero, suc, ◌+◌, ◌*◌, ◌≤◌, ◌<◌, ◌≡◌, ◌≢◌, ◌↔◌, ◌⊎◌, Exists, refl, inl, inr, true, false, none,
  List, [], ◌∷◌, ltb, length, arith, Bool-cases, ltb→lt,
}
use ait.Logger.Channel.{TrySend, signal_from, signal_shutdown}
use ait.Logger.Writes.{Worker, flush_buffer}
use ait.Logger.Worker.{
  Pass, event, timeout, disconnected, is_shutdown, has_shutdown, flush_full, gather, iteration,
  worker_loop,
}
use ait.Db.{LogEvent, access, proxy, audit, shutdown}

module _ (answer : ℕ → TrySend) (now : ℕ → ℕ) (deadline : ℕ)
    (sleeps : (attempt : ℕ) → now attempt + 10 ≤ now (attempt + 1)) where
  signal_from-ends :
      (fuel attempt : ℕ)
      → deadline ≤ now attempt + 10 * fuel
      → signal_from answer now deadline (suc fuel) attempt ≢ none
  unfolding signal_from
  signal_from-ends zero attempt room h = elim (Bool-cases (ltb (now attempt) deadline)) [
    | inl early ↦ absurd (omega (arith, ltb→lt (now attempt) deadline early))
    | inr late ↦ ground arith
  ]
  signal_from-ends (suc fuel) attempt room h = elim (Bool-cases (ltb (now attempt) deadline)) [
    | inl early ↦
        let rest = signal_from-ends fuel (attempt + 1) (omega (arith, sleeps attempt)) in
        ground (arith, rest)
    | inr late ↦ ground arith
  ]

-- When the clock is not before its first reading and each attempt sleeps at least 10 ms, then
-- `signal_shutdown` ends within 501 attempts, whatever the channel answers.
pub signal_shutdown-ends :
    (answer : ℕ → TrySend) (now : ℕ → ℕ) (start : ℕ)
    → start ≤ now 0
    → ((attempt : ℕ) → now attempt + 10 ≤ now (attempt + 1))
    → signal_shutdown answer now start 501 ≢ none
unfolding signal_shutdown
signal_shutdown-ends answer now start begun sleeps =
    signal_from-ends answer now (start + 5000) sleeps 500 0 (omega arith)

-- The messages that a pass takes from the channel.
abbrev pub messages : Pass → List LogEvent
messages (event e, turn) = e ∷ turn.pending
messages (timeout, turn) = turn.pending
messages (disconnected, turn) = []

-- A pass that finds the channel disconnected or takes a shutdown from it.
abbrev pub Stops : Pass → Type 0
Stops pass = (pass.0 ≡ disconnected) ⊎ Exists (λ e. e ≡ shutdown) (messages pass)

is_shutdown_iff : (e : LogEvent) → (is_shutdown e ≡ true) ↔ (e ≡ shutdown)
unfolding is_shutdown
is_shutdown_iff shutdown = (λ h. refl, λ h. refl)
is_shutdown_iff (access e) = (λ h. absurd (ground arith), λ h. absurd (ground arith))
is_shutdown_iff (proxy e) = (λ h. absurd (ground arith), λ h. absurd (ground arith))
is_shutdown_iff (audit e) = (λ h. absurd (ground arith), λ h. absurd (ground arith))

has_shutdown_iff :
    (events : List LogEvent) → (has_shutdown events ≡ true) ↔ Exists (λ e. e ≡ shutdown) events
unfolding has_shutdown
has_shutdown_iff [] = (λ h. ground arith, λ h. ground arith)
has_shutdown_iff (e ∷ events) = ground (arith, is_shutdown_iff e, has_shutdown_iff events)

module _ (batch every : ℕ) where
  iteration_iff :
      (pass : Pass) (w : Worker) → ((iteration batch every pass w).0 ≡ true) ↔ Stops pass
  unfolding iteration
  iteration_iff (disconnected, turn) w = (λ h. inl refl, λ h. refl)
  iteration_iff (event e, turn) w = ground (arith, is_shutdown_iff e, has_shutdown_iff turn.pending)
  iteration_iff (timeout, turn) w = ground (arith, has_shutdown_iff turn.pending)

  -- The worker returns exactly when some pass finds the channel disconnected or takes a shutdown
  -- from it, whatever it has buffered and whatever DuckDB answers.
  pub worker_loop-ends :
      (passes : List Pass) (w : Worker)
      → ((worker_loop batch every passes w).0 ≡ true) ↔ Exists Stops passes
  unfolding worker_loop
  worker_loop-ends [] w = ground arith
  worker_loop-ends (pass ∷ passes) w =
      let now = iteration batch every pass w in
      ground (arith, iteration_iff pass w, worker_loop-ends passes now.1)

  length-gather :
      (pass : Pass) (w : Worker) → 1 ≤ batch → length (gather batch every pass w).buffer < batch
  unfolding gather flush_full flush_buffer
  length-gather (received, turn) w h = ground arith

  length-iteration :
      (pass : Pass) (w : Worker)
      → 1 ≤ batch
      → (iteration batch every pass w).0 ≡ false
      → length (iteration batch every pass w).1.buffer < batch
  unfolding iteration
  length-iteration (disconnected, turn) w h goes = ground arith
  length-iteration (event e, turn) w h goes = ground (arith, length-gather (event e, turn) w h)
  length-iteration (timeout, turn) w h goes = ground (arith, length-gather (timeout, turn) w h)

  -- With a batch size of at least 1, a buffer below the batch size is below it again at the end of
  -- every run of passes that has not returned.
  pub length-worker_loop :
      (passes : List Pass) (w after : Worker)
      → 1 ≤ batch
      → length w.buffer < batch
      → worker_loop batch every passes w ≡ (false, after)
      → length after.buffer < batch
  unfolding worker_loop
  length-worker_loop [] w after h small e = ground arith
  length-worker_loop (pass ∷ passes) w after h small e =
      let now = iteration batch every pass w in
      elim (Bool-cases now.0) [
        | inl stop ↦ ground arith
        | inr goes ↦
            length-worker_loop passes now.1 after h (length-iteration pass w h goes) (ground arith)
      ]
