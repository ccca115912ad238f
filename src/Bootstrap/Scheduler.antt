-- ===== src/Bootstrap/Scheduler.antt =====
-- `InventoryBootstrapScheduler.ensureInitialized`. Its reads and writes are no transaction; what the
-- others do between its first write and its second read is an argument.
use wctm.Prelude.{
  ◌+◌, Key, Date, Text, codes, text_eq, Bool, true, false, not, ◌&&◌, ◌||◌, Option, none, some,
  is_some, if◌then◌else◌, Result, ok, err, Action, ⊤,
}
use wctm.Database.Methods.{Client}
use wctm.Bootstrap.State.{
  SyncState, uninitialized, syncing, ready, failed, same_state, Store, of_store, loadable,
  syncing_at,
}
use wctm.Bootstrap.Processor.{Error, other, Services, World, ask, write_stores, job_of}

pub record Initialized : Type 0 where
  pub previous_state : SyncState
  pub state : SyncState
  pub enqueue_failed : Bool

abbrev pub has_code : Option Text → Bool
has_code none = false
has_code (some t) = text_eq t (codes "bootstrap-enqueue-failed")

-- The `data` of the write that starts a scan, or starts it again.
unfoldable pub restarted : SyncState → Date → Store → Store
restarted previous now s = record s {
  sync_state = syncing;
  started_at = if same_state previous uninitialized then some now else s.started_at;
  failed_at = none;
  failure_code = none;
  lease_at = none;
  revision = s.revision + 1;
}

abbrev pub without_failure : Store → Store
without_failure s = record s { failed_at = none; failure_code = none }

abbrev pub enqueue_failure : Date → Store → Store
enqueue_failure now s = record s {
  failed_at = some now;
  failure_code = some (codes "bootstrap-enqueue-failed");
  lease_at = none;
}

abbrev pub live : Store → Bool
live s = s.is_active && not (is_some s.deleted_at)

module _ {Outside : Type 0} (svc : Services Outside) (db : Client Store) where
  -- The jobs of a Store that is syncing are handed over, and the outcome noted.
  unfoldable pub hand_over : SyncState → Store → Date → Action Error (World Outside) Initialized
  unfolding ask write_stores
  hand_over previous s now w = noted (ask svc db (svc.add_job (job_of s)) w)
    where
      noted : Result Error ⊤ × World Outside → Result Error Initialized × World Outside
      noted (ok x, v) = (
        ok (record { previous_state = previous; state = syncing; enqueue_failed = false }),
        (write_stores svc db (λ r. syncing_at (job_of s) r && has_code r.failure_code)
            without_failure v).1,
      )
      noted (err e, v) = (
        ok (record { previous_state = previous; state = syncing; enqueue_failed = true }),
        (write_stores svc db (syncing_at (job_of s)) (enqueue_failure now) v).1,
      )

  abbrev pub after_start :
      SyncState → Option Store → Date → Action Error (World Outside) Initialized
  after_start previous none now w = (err other, w)
  after_start previous (some s) now w =
      if same_state s.sync_state syncing then hand_over previous s now w else (
        ok (record { previous_state = previous; state = s.sync_state; enqueue_failed = false }),
        w,
      )

  abbrev pub start_scan : Key → Key → SyncState → Date → World Outside → World Outside
  start_scan tenant store previous now w =
      if same_state previous uninitialized || same_state previous failed
      then (write_stores svc db
          (λ r. of_store tenant store r && same_state r.sync_state previous && live r)
          (restarted previous now) w).1
      else w

  abbrev pub of_found :
      (World Outside → World Outside)
      → Key
      → Key
      → Option Store
      → Date
      → Action Error (World Outside) Initialized
  of_found meanwhile tenant store none now w = (err other, w)
  of_found meanwhile tenant store (some s) now w =
      if same_state s.sync_state ready
      then (ok (record { previous_state = ready; state = ready; enqueue_failed = false }), w)
      else let v = meanwhile (start_scan tenant store s.sync_state now w) in
        after_start s.sync_state (db.find_first (λ r. of_store tenant store r && live r) v.stores)
          now v

  -- `ensureInitialized`
  unfoldable pub ensure_initialized :
      (World Outside → World Outside) → Key → Key → Date → Action Error (World Outside) Initialized
  unfolding hand_over restarted write_stores
  ensure_initialized meanwhile tenant store now w =
      of_found meanwhile tenant store
        (db.find_first
          (loadable (record { tenant_id = tenant; store_id = store; revision = 0 }) w.tenants)
          w.stores)
        now w
