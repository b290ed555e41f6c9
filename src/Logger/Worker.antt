-- ===== src/Logger/Worker.antt =====
-- src/db/logger.rs, worker_loop: one iteration after another, each with what the channel delivers
-- and what DuckDB answers. The watchdog makes a statement fail that runs too long.
use ait.Base.{ℕ, leb, Bool, true, false, ◌||◌, List, [], ◌∷◌, ◌++◌, length, if◌then◌else◌}
use ait.Db.{LogEvent, access, proxy, audit, shutdown}
use ait.Logger.Writes.{Answers, Worker, is_empty, flush_events, flush_buffer}

-- What `recv_timeout` returns.
pub data Received : Type 0 where
  event : LogEvent → Received
  timeout disconnected : Received

-- One pass of the loop: the first message, those that `try_recv` then finds, and the answers to the
-- flush at a timeout, to the flush of a full batch and to the last write.
pub record Turn : Type 0 where
  pub pending : List LogEvent
  pub at_timeout : Answers
  pub at_batch : Answers
  pub at_end : Answers

abbrev pub Pass : Type 0
Pass = Received × Turn

unfoldable pub is_shutdown : LogEvent → Bool
is_shutdown shutdown = true
is_shutdown (access e) = false
is_shutdown (proxy e) = false
is_shutdown (audit e) = false

-- The events that are pushed, and whether a shutdown was among them.
unfoldable pub pushed : List LogEvent → List LogEvent
unfolding is_shutdown
pushed [] = []
pushed (e ∷ events) = let rest = pushed events in if is_shutdown e then rest else e ∷ rest

unfoldable pub has_shutdown : List LogEvent → Bool
unfolding is_shutdown
has_shutdown [] = false
has_shutdown (e ∷ events) = is_shutdown e || has_shutdown events

-- The write before the worker returns, `CHECKPOINT` aside.
unfoldable pub write_last : Answers → Worker → Worker
unfolding flush_events
write_last answers w =
    if is_empty w.buffer then w else record w { logs = (flush_events answers w.buffer w.logs).1 }

module _ (flush_batch retention_every : ℕ) where
  -- The first message of a pass that does not find the channel disconnected.
  unfoldable pub receive : Received → Answers → Worker → Worker
  unfolding flush_buffer is_shutdown
  receive (event e) answers w =
      if is_shutdown e then w else record w { buffer = w.buffer ++ e ∷ [] }
  receive timeout answers w =
      if is_empty w.buffer then w else flush_buffer retention_every answers w
  receive disconnected answers w = w

  unfoldable pub flush_full : Answers → Worker → Worker
  unfolding flush_buffer
  flush_full answers w =
      if leb flush_batch (length w.buffer) then flush_buffer retention_every answers w else w

  -- The worker after the messages of a pass.
  unfoldable pub gather : Pass → Worker → Worker
  unfolding receive flush_full pushed
  gather (received, turn) w =
      let w1 = receive received turn.at_timeout w in
      flush_full turn.at_batch (record w1 { buffer = w1.buffer ++ pushed turn.pending })

  -- Whether the worker has returned, and its state.
  unfoldable pub iteration : Pass → Worker → Bool × Worker
  unfolding gather write_last has_shutdown
  iteration (disconnected, turn) w = (true, write_last turn.at_end w)
  iteration (event e, turn) w =
      let after = gather (event e, turn) w in
      if is_shutdown e || has_shutdown turn.pending
      then (true, write_last turn.at_end after)
      else (false, after)
  iteration (timeout, turn) w =
      let after = gather (timeout, turn) w in
      if has_shutdown turn.pending then (true, write_last turn.at_end after) else (false, after)

  unfoldable pub worker_loop : List Pass → Worker → Bool × Worker
  unfolding iteration
  worker_loop [] w = (false, w)
  worker_loop (pass ∷ passes) w =
      let after = iteration pass w in
      let rest = worker_loop passes after.1 in if after.0 then after else rest
