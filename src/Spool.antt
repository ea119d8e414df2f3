-- ===== src/Spool.antt =====
-- The durable state of the broker: the tables of store.rs, the metadata, and the triggers that
-- guard a drain. An UPDATE names its rows by a test.
use agcoord.Base.{
  ℕ, suc, String, Bool, ◌&&◌, ◌||◌, Option, List, [], ◌∷◌, ◌++◌, Map, lookup, insert, str_eq, any,
  is_text, if◌then◌else◌,
}
use agcoord.Run.{RunRecord, Result, ok, err, broker_draining}
use agcoord.Lease.{Lease}

-- `meta` is `coordinator_meta` less `last_activity`, which stands by itself.
pub record Spool : Type 0 where
  pub runs : List RunRecord
  pub leases : List Lease
  pub next_sequence : ℕ
  pub next_lease : ℕ
  pub meta : Map String
  pub guards : List String
  pub last_activity : ℕ

unfoldable pub metadata : String → Spool → Option String
metadata key spool = lookup key spool.meta

unfoldable pub set_metadata : String → String → Spool → Spool
set_metadata key value spool = record spool { meta = insert key value spool.meta }

abbrev pub has_guard : String → Spool → Bool
has_guard name spool = any (str_eq name) spool.guards

-- The triggers on `last_activity`, which a drained coordinator refuses to move.
unfoldable pub set_last_activity : ℕ → Spool → Result Spool
unfolding metadata
set_last_activity now spool =
    if has_guard "agcoord_maintenance_reject_activity_update" spool
      && is_text (metadata "maintenance_state" spool) "drained"
    then err broker_draining
    else ok (record spool { last_activity = now })

-- The trigger on new runs.
unfoldable pub refuses_runs : Spool → Bool
unfolding metadata
refuses_runs spool =
    let state = metadata "maintenance_state" spool in
    has_guard "agcoord_maintenance_reject_runs" spool
    && (is_text state "draining" || is_text state "drained" || is_text state "recovering")

-- `INSERT INTO runs`: AUTOINCREMENT gives the sequence.
unfoldable pub insert_run : (ℕ → RunRecord) → Spool → Result Spool
unfolding refuses_runs
insert_run row spool =
    if refuses_runs spool
    then err broker_draining
    else ok (record spool {
      runs = spool.runs ++ row spool.next_sequence ∷ [];
      next_sequence = suc spool.next_sequence;
    })

unfoldable pub update_runs :
    (RunRecord → RunRecord) → (RunRecord → Bool) → List RunRecord → List RunRecord
update_runs change matches [] = []
update_runs change matches (run ∷ runs) =
    (if matches run then change run else run) ∷ update_runs change matches runs

-- `UPDATE runs SET … WHERE run_id = …`
unfoldable pub update_run : (RunRecord → RunRecord) → String → Spool → Spool
unfolding update_runs
update_run change run_id spool = record spool {
  runs = update_runs change (λ run. str_eq run.run_id run_id) spool.runs;
}
