-- ===== src/Lib.antt =====
-- Verification of CNServerOps: the vendor-neutral core that decides what a production SSD may do to a
-- server, and what it records.
--
-- The parts and how they interact. An identity is derived from the evidence of the server. The
-- orchestrator starts a run for that identity, moves it from stage to stage and closes it with a
-- disposition. Each move persists two files, run.json and workflow-state.json. A stage that changes
-- the server needs the mutation gate, an approval bound to the machine, the run and the package.
-- Firmware is chosen from a package's metadata and a catalog entry, kept in a repository by checksum,
-- and installed by the executor through an adapter. A reboot in between is bridged by a checkpoint. At
-- the end the states of all capabilities decide whether the server may be handed over.
--
-- Files, with the code that they model:
--   Prelude, Text, Exec: shared names, Boolean tests, lists, results, texts; methods that may raise.
--   Identity: the dict that derive_machine_identity returns (cnserverops/identity.py), as far as it
--     is read; a missing key reads as the empty text, as `str(identity.get(key) or "")` does.
--   Safety: MutationGate and require (cnserverops/safety.py); Safety/Gate has its theorems.
--   Disposition: decide_final_disposition (cnserverops/disposition.py).
--   Models: RunRecord and ServerRecord (cnserverops/models.py), with the enums in Models/Status.
--   State: load_state, the continuity checks and write_state (cnserverops/state.py).
--   Orchestrator: ProductionOrchestrator (cnserverops/orchestrator.py). Stages has WorkflowStage and
--     _TRANSITIONS, Routes select_vendor_route, Store the context and the files, Persist the writes,
--     Start the methods start and resume, Checks the guards of transition. The parent has transition
--     and finalize. Effect and Closing say what they do, Trace and Moves what a history is.
--   Firmware: FirmwarePackageMetadata and evaluate_applicability (cnserverops/firmware.py).
--   Firmware/Repository: FirmwareRepository.verify, ingest and fetch_if_missing, over the bytes of the
--     objects by checksum; the locks that make them exclusive are not modelled.
--   Executor: FirmwareUpdateExecutor (cnserverops/firmware_executor.py), with its tasks and results
--     in Tasks and the calls that leave it in Calls. The polls of a run are recursion on max_polls,
--     the bound of the source's own loop.
--   Handoff: evaluate_handoff (cnserverops/handoff.py); Policy has the classes of states.
--   Lifecycle: the reboot checkpoint (cnserverops/firmware_lifecycle.py): Checkpoint has its data, Build
--     build_pending; the parent has load_pending, validate_pending_for_resume and the reboot request,
--     whose writes and command are effects in order.
--   Json: JSON values for the data that the source passes around as mappings, and the record Python of
--     what json, hashlib, repr and int answer, a parameter of all that uses them.
--   Secrets: cnserverops/secrets.py; its regular expression is a search over suffixes.
--   Sync: StoreForwardQueue (cnserverops/sync.py): Rows has the table and its statements, the parent
--     initialize, enqueue, quarantine, status_for_run, counts and _mark_authoritative_synced, Drain the
--     loop of drain over the rows that were selected, with the client as a function of its own state.
--   Collector: CentralCollector (cnserverops/collector.py): Schema has the tables, as functions of their
--     keys, the parent ingest_event, Artifacts the artifacts and the run context.
--   Delivery: the collector as the client of a queue; History has sequences of operations on the two, and
--     events from elsewhere and interrupted uploads among them.
--   Logs: cnserverops/logs.py over a machine that answers commands; Parse has its patterns. The loop of
--     verify_empty is recursion on the attempts that are left.
--   Stress: the plans of cnserverops/stress_profiles.py; Cycles has the loop of _cyclic_profile on fuel,
--     which is the total duration, since each cycle takes at least a second of it.
--   Evidence: cnserverops/evidence.py.
--   Derivation: derive_machine_identity (cnserverops/identity.py), whose result, as the workflow reads
--     it, is the record of Identity; Words has its texts and patterns.
--   Runner: cnserverops/runner.py, over the JSON of the runner file.
--   Hardware: HardwareTestPlanner.plan and assess_sensor_snapshot (cnserverops/hardware_tests.py) and
--     evaluate_diagnostic_coverage (cnserverops/diagnostic_framework.py).
--
-- Code outside the repository is a parameter: the clock, the new RUN_ID, datetime.fromisoformat, the
-- sha256 of a file, shutil.copyfile, the command executor, the vendor adapters and callbacks, which may
-- raise; the HTTPS downloader, which is network I/O, is one too. Texts are sequences of characters;
-- upper, lower and strip act on ASCII, as on the serial numbers, identifiers and names that the code
-- compares. Instants are natural numbers. A write by _atomic_json replaces a file in one step. A JSON
-- object that the code stores is a record of its keys; an empty object in place of a stored state,
-- which the code treats as no state, is no value.
--
-- Not modelled: the network, tools and terminals (Redfish and ASUS transports, the HTTP service
-- of the collector, the operator console, production.py), the queue of artifact files, the runs of
-- stress-ng, report building, the installer and deployment.
pub mod Collector
pub mod Delivery
pub mod Derivation
pub mod Disposition
pub mod Evidence
pub mod Exec
pub mod Executor
pub mod Firmware
pub mod Handoff
pub mod Hardware
pub mod Identity
pub mod Json
pub mod Lifecycle
pub mod Logs
pub mod Models
pub mod Orchestrator
pub mod Prelude
pub mod Runner
pub mod Safety
pub mod Samples
pub mod Secrets
pub mod State
pub mod Stress
pub mod Sync
pub mod Text
