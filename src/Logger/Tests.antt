-- ===== src/Logger/Tests.antt =====
-- src/db/logger.rs: runs of the worker and of the shutdown signal.
use ait.Base.{
  ℕ, ◌+◌, ◌*◌, ◌≡◌, ◌≢◌, refl, ap, not, Bool, true, false, none, List, [], ◌∷◌, codes, arith,
}
use ait.Base.Int.{pos, leb_ℤ}
use ait.Db.{DateTime, AccessEvent, LogEvent, access, proxy, shutdown}
use ait.Logger.Writes.{Answers, Worker}
use ait.Logger.Worker.{Pass, Turn, event, timeout, worker_loop}
use ait.Logger.Channel.{TrySend, full, signal_shutdown}
use ait.Logger.Arrivals.{arrivals, IsHealthy}
use ait.Logger.Delivery.{Delivers, worker_loop-Delivers}
use ait.Logger.Signal.{Stops, signal_shutdown-ends, worker_loop-ends}
use ait.Proxy.Sse.Tests.{sample_event}
use ait.Base.{◌↔◌, Exists}

abbrev answers : Answers
answers = record {
  begin = true;
  append_access = true;
  append_proxy = true;
  append_audit = true;
  commit = true;
  clean_access = true;
  clean_proxy = false;
  clean_audit = true;
  cutoff = pos 0;
}

abbrev visit : AccessEvent
visit = record {
  timestamp = pos 5;
  request_id = codes "r";
  method = codes "GET";
  path = codes "/";
  status = pos 200;
  latency_ms = pos 1;
  client_ip = none;
}

abbrev turn : List LogEvent → Turn
turn pending = record {
  pending = pending;
  at_timeout = answers;
  at_batch = answers;
  at_end = answers;
}

abbrev passes : List Pass
passes =
    (event (access visit), turn (proxy sample_event ∷ []))
    ∷ (timeout, turn [])
    ∷ (event (access visit), turn (shutdown ∷ []))
    ∷ []

abbrev idle : Worker
idle = record {
  buffer = [];
  flush_count = 0;
  logs = record { access_log = []; proxy_log = []; audit_log = [] };
}

abbrev fresh : DateTime → Bool
fresh t = leb_ℤ (pos 0) t

answers-IsHealthy : IsHealthy fresh answers
answers-IsHealthy = (refl, refl, refl, refl, refl, λ t h. ap not h)

worker_loop-Delivers_example :
    Delivers fresh idle (arrivals passes) (worker_loop 2 1 passes idle).1.logs
unfolding worker_loop
worker_loop-Delivers_example =
    let turn_ok : IsHealthy fresh answers × IsHealthy fresh answers × IsHealthy fresh answers =
      (answers-IsHealthy, answers-IsHealthy, answers-IsHealthy) in
    worker_loop-Delivers fresh 2 1 passes idle (worker_loop 2 1 passes idle).1
      (turn_ok, (turn_ok, (turn_ok, tt))) refl

abbrev every_ten : ℕ → ℕ
every_ten attempt = 10 * attempt + 3

abbrev stays_full : ℕ → TrySend
stays_full attempt = full

signal_shutdown-ends_example : signal_shutdown stays_full every_ten 3 501 ≢ none
signal_shutdown-ends_example =
    signal_shutdown-ends stays_full every_ten 3 (omega arith) (λ attempt. omega arith)

worker_loop-ends_example : ((worker_loop 2 1 passes idle).0 ≡ true) ↔ Exists Stops passes
worker_loop-ends_example = worker_loop-ends 2 1 passes idle
