-- ===== src/Workers/Samples.antt =====
-- The workers' theorems on concrete queues.
use semiconductor_intel.Prelude.{
  ℕ, ◌+◌, ◌≡◌, refl, String, [], ◌∷◌, inl, inr, arith, none, some, Option, sym, ◌∙◌, ap, nat_eq,
  string_eq,
}
use semiconductor_intel.Prelude.Dict.{triple_eq, get, put}
use semiconductor_intel.Prelude.Exec.{ok, pure, raise, gets, run, pick, ◌>>=◌}
use semiconductor_intel.Queue.Rows.{JobRecord, seconds, retry_wait, cancelled}
use semiconductor_intel.Queue.Effects.{Sys, QueueError, new_uuid, read_clock, store, query}
use semiconductor_intel.Queue.Store.{
  insert_job, find_idempotent_job, next_event_seq, top_seq, events_of, insert_event,
}
use semiconductor_intel.Queue.KindSpec.{kind_specs, build_key, build_idempotency_key}
use semiconductor_intel.Queue.Service.{enqueue, insert_or_find, after_insert, append_event, new_job}
use semiconductor_intel.Queue.Samples.{sample_env, empty, marks, job_claimed}
use semiconductor_intel.Workers.Scheduler.{
  DueFeed, DailyReportTarget, DueWatch, SchedulerTickResult, nothing, Printers, run_once, dispatch,
  schedule_slot, enqueue_request, feed_request, report_request, watch_request,
}
use semiconductor_intel.Prelude.Json.{field, text, end}
use semiconductor_intel.Queue.Rules.{carried}
use semiconductor_intel.Workers.Runner.{Ending, conclude, unclassified, job_cancelled, finished}
use semiconductor_intel.Workers.Zombie.{Superseded, conclude-Superseded}
use semiconductor_intel.Workers.Closing.{Held, Closed, conclude-Closed}
use semiconductor_intel.Workers.Slots.{StillDue, run_once-again}

-- What the methods unfold to.
program : Unit {0}
unfolding run_once dispatch enqueue_request feed_request report_request watch_request schedule_slot
    kind_specs build_key build_idempotency_key enqueue insert_or_find after_insert append_event
    new_job new_uuid read_clock store query insert_job find_idempotent_job next_event_seq top_seq
    events_of insert_event get put pure raise gets run pick ◌>>=◌
program = tt

-- Numbers in unary.
abbrev strings : Printers
strings = record { uuid = marks; int = λ n. "slot" }

abbrev feed : DueFeed
feed = record { owner_id = 7; feed_id = 3; interval_seconds = 600; config_version = 1 }

abbrev target : DailyReportTarget
target = record { owner_id = 7; industry_id = 2; local_date = "2026-07-01" }

abbrev watch : DueWatch
watch = record { owner_id = 7; industry_id = 2; watch_id = 4 }

abbrev noon : ℕ
noon = seconds 1_200_000

abbrev ticked : Sys
ticked =
    (run_once sample_env strings (seconds 21_600) noon (feed ∷ []) (target ∷ []) (watch ∷ [])
      empty).1

abbrev once : SchedulerTickResult
once = record { discovered = 1; reports = 1; watches = 1; job_ids = 100 ∷ 101 ∷ 102 ∷ [] }

ticks :
    run_once sample_env strings (seconds 21_600) noon (feed ∷ []) (target ∷ []) (watch ∷ []) empty
    ≡ (ok once, ticked)
unfolding program
ticks = refl

still_due :
    StillDue
      (seconds 21_600)
      noon
      (noon + 5)
      (feed ∷ [])
      (feed ∷ [])
      (target ∷ [])
      (target ∷ [])
      (watch ∷ [])
      (watch ∷ watch ∷ [])
unfolding schedule_slot
still_due = record {
  feed = λ f m. elim m [ inl e ↦ (inl e, rw e refl) | inr m ↦ absurd m ];
  target = λ d m. m;
  watch = λ w m. elim m [ inl e ↦ inl e | inr m ↦ m ];
  slot = refl;
}

run_once-again_example :
    (u : Sys) × (u.db ≡ ticked.db)
    × (run_once sample_env strings
          (seconds 21_600)
          (noon + 5)
          (feed ∷ [])
          (target ∷ [])
          (watch ∷ watch ∷ [])
          ticked
        ≡ (ok nothing, u))
run_once-again_example =
    run_once-again sample_env strings (seconds 21_600) noon (noon + 5) (feed ∷ []) (feed ∷ [])
      (target ∷ []) (target ∷ []) (watch ∷ []) (watch ∷ watch ∷ []) once empty ticked ticks
      still_due

-- The claimed job's row as the reaper leaves it, and as the claim did.
abbrev reaped : JobRecord
reaped = record job_claimed { state = retry_wait; lease_token = none; lease_until = none }

abbrev holding : JobRecord → Sys
holding r = record {
  db = record { jobs = (100, r) ∷ []; idempotency = []; steps = []; events = []; locks = [] };
  reads = 3;
  draws = 0;
  mints = 0;
}

none-some : {x : String} → Path (Option String) none (some x) → ⊥
none-some e = cc

the_row : (r q : JobRecord) → get 100 (holding r).jobs ≡ some q → r ≡ q
unfolding get
the_row r q e = cc

reaped-Superseded : Superseded sample_env job_claimed (holding reaped)
reaped-Superseded = record {
  named = λ r found. ap (λ (q : JobRecord). q.id) (sym (the_row reaped r found));
  expired = λ r until n found has ends later.
      absurd (none-some (ap (λ (q : JobRecord). q.lease_token) (the_row reaped r found) ∙ has));
}

abbrev repr : QueueError → String
repr e = "error"

conclude-Superseded_example :
    (ending : Ending) × (t : Sys) × (conclude sample_env repr job_claimed 900
        (unclassified "KeyError()")
        (holding reaped)
      ≡ (ok ending, t))
    × (t.db ≡ (holding reaped).db)
conclude-Superseded_example =
    conclude-Superseded sample_env repr job_claimed 900 (unclassified "KeyError()") (holding reaped)
      reaped-Superseded

claimed-Held :
    Held sample_env job_claimed job_claimed "tt" (seconds 1_000_090 + 2) (holding job_claimed)
unfolding get carried
claimed-Held = record {
  found = refl;
  named = refl;
  active = refl;
  carries = refl;
  has = refl;
  ends = refl;
  early = omega arith;
}

conclude-Closed_example :
    (row : JobRecord) × (t : Sys) × (conclude sample_env repr job_claimed 900 job_cancelled
        (holding job_claimed)
      ≡ (ok (finished row), t))
    × (row.id ≡ 100)
    × Closed row cancelled (field "code" (text "cancelled") end) t
conclude-Closed_example =
    conclude-Closed sample_env job_claimed job_claimed "tt" (seconds 1_000_090 + 2)
      (holding job_claimed) claimed-Held repr 900 job_cancelled cancelled
      (field "code" (text "cancelled") end) refl
