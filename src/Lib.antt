-- ===== src/Lib.antt =====
-- AGCoord: the native broker that admits, runs and publishes the work of several agents on one
-- machine (native/agcoord-broker/src). The rows of its spool are values here, an operation is a
-- function from the rows it reads to the rows it leaves or to the code of its error, and an error
-- leaves the old rows, as the transaction that it rolls back does.
--
-- Parts and files:
--   Base       tests on numbers and strings, lists, association lists, the integers of exit codes
--   Text       store.rs `identifier_valid`, `commit_sha_valid`, `drain_id_valid`; `trim`, `split`
--   Run        store.rs `RunRecord`, `load_run`, and the error codes
--   Process    platform.rs: process identity, ownership and descent over one snapshot of /proc
--   Schedule   store.rs `allocations`, `blocked_by`; broker.rs `validate_active`,
--              `next_admissible` and the UPDATE by which `start_worker` admits a run
--   Lease      store.rs: the child CPU leases of a run: `maintain_child_cpu_leases`,
--              `request_child_cpu_lease`, `finish_child_cpu_lease`, `child_cpu_leases`
--   Spool      store.rs: the tables, the metadata and the triggers of a drain
--   Clock      store.rs `maintenance_time_valid`
--   Maintenance store.rs `maintenance_record`, `begin_drain`, `drain_status`, `resume`
--   Land       store.rs `verify_admission`, `advance_land_phase`
--   Gate       store.rs `reuse_gate`, `report_land_result`
--   Finish     broker.rs `start_worker` (its two transactions), `observe` (its verdicts),
--              `finish_run`, `request_interruption`, `land_request_options`; store.rs `cancel`
--   Submit     store.rs `validate_submit`
--   Merge      store.rs `submit`: the choice of a merge's gate
--   Enqueue    store.rs `submit`, `insert_request`, `clear`; resources.rs `resource_contract`
--   Pump       broker.rs `pump_once`: one round of its admitting loop
--   Json       serde_json `Value` and its accessors
--   Resources  resources.rs: names, bindings, stored states
--   Rows       store.rs `run_from_row`: which rows can be loaded
--   Backends   broker.rs: a run's resources, from `prepare_resources` to
--              `finish_and_cleanup_resources`, with the setup of its worker; the requests of
--              cgroup.rs and project_quota.rs. `Backends.Laws` states what a backend promises
--   Recovery   recovery.rs: the record of a guarded host recovery and its operations;
--              `Recovery.Phases` is the specification that they refine
--   Life       the operations of submission, a run's life, gates, clearing and drains as steps on
--              the spool, and what the steps keep; those of a recovery are not among them
--   Examples   tests, and each theorem at a concrete input
--
-- The scheduler reads the runs and chooses one to start; a started run has a worker process, whose
-- descendants ask for CPU leases within the run's CPU units; maintenance of the leases runs before
-- and after the broker has looked at the active runs. A land reports its phases to the broker, which
-- holds its gate's verdict; a merge is queued behind the receipt of a passed gate. A drain refuses
-- new runs until the live ones are gone. Each operation is one transaction, so an interleaving of
-- clients, workers and the broker is a sequence of steps, but for the operations of a recovery, which
-- are steps of `Recovery.Phases`; only the broker that owns the spool starts
-- runs, and it chooses and starts a run in one step here.
--
-- Bounds and fuel: u64 sums are written with their saturation, check or wrap at 2 ^ 64. The walk up
-- the process tree has one round for each process of the table and one more; the grant loop one
-- round for each waiting lease, since every round takes one from the queue.
--
-- A backend (a cgroup, a project quota) is a record of six operations, whose answers come from the
-- kernel; `Backends.Laws.IsBackend` is what the broker relies on. A recovery asks the file system and
-- /proc through `Recovery.Machine`, whose answers are arbitrary.
--
-- Not modelled: SQLite itself, the file system, the system calls of cgroups, quotas and the worker's
-- process setup, what `start_worker` does between its transactions beside the operations on the
-- run's resources, schema migrations, and the command line. Times are numbers, but in events and
-- markers, where they are texts. `load_run` reads rows that `run_from_row` accepts, and JSON columns
-- are values here.
mod Base
pub mod Text
pub mod Run
pub mod Json
pub mod Resources
pub mod Backends
pub mod Rows
pub mod Recovery
pub mod Process
pub mod Schedule
pub mod Lease
pub mod Spool
pub mod Clock
pub mod Maintenance
pub mod Land
pub mod Gate
pub mod Finish
pub mod Submit
pub mod Merge
pub mod Enqueue
pub mod Life
pub mod Pump
mod Examples
