-- ===== src/Examples/Ingest.antt =====
-- An event that comes a second time, at a concrete input.
use kazutb_siem.Base.{◌≡◌, refl, true, none, []}
use kazutb_siem.Core.{ok}
use kazutb_siem.Store.State.{Memory, new_memory}
use kazutb_siem.Store.Events.{put_event}
use kazutb_siem.Correlation.Observe.{new_memory_correlation_store}
use kazutb_siem.Pipeline.Normalize.{normalized, normalize}
use kazutb_siem.Pipeline.Ingest.{ingest}
use kazutb_siem.Pipeline.Duplicates.{ingest_duplicate}
use kazutb_siem.Examples.Data.{encoder, env, event}

abbrev with_event : Memory
with_event = (put_event event new_memory).1

ingest_duplicate_example :
    ingest encoder env (λ _. none) 7 "north" event with_event new_memory_correlation_store ≡ (
      ok (record { event = event; findings = []; alerts = []; duplicate = true }),
      (with_event, new_memory_correlation_store),
    )
unfolding normalize normalized put_event
ingest_duplicate_example =
    ingest_duplicate encoder env (λ _. none) 7 "north" event
      (normalized encoder 1000 "evt" "north" event) event with_event new_memory_correlation_store
      refl refl refl refl refl
