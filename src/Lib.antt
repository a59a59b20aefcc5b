-- ===== src/Lib.antt =====
-- Verification of the Bosun hub: the process that owns the USB link to one MIDI Captain and shares
-- it among many editors and stage displays (tools/rpi-hub/bosun_hub).
--
-- Parts and how they interact:
-- * Link and its children model UpstreamLink of tools/rpi-hub/bosun_hub/link.py. Link has `send` and
--   `connected` with the TX queue; a section under the state lock is one step, and `schedule` lists
--   what the link thread does before each section that the hub enters, so that every interleaving is
--   some schedule. Link/Queue adds histories of sections. Link/Receive models _feed_bytes and
--   _is_own_reply, Link/Pump the loop of _pump and Link/Sentinel that of _sentinel_sync, whose clock
--   and transport are inputs.
-- * Subscription models _offer and close of the class Subscription of hub.py.
-- * Hub and its children model the class Hub of tools/rpi-hub/bosun_hub/hub.py. Hub/State has its
--   fields as a record and the steps that all paths share (_offer_correlated, _track_read,
--   _read_done, timers). Hub/Request has the ordinary requests (_queue_request, _take_request,
--   _request_timed_out, _consume_request_reply, ...), Hub/ContextFlight the single flight of
--   GET_CONTEXT, Hub/PatchKey, Hub/PatchFlight and Hub/PatchReply the keyed flights of GET_PATCH with
--   their cache and what mutations do to both, Hub/Dispatch what a line from the Captain does
--   (_dispatch, _dispatch_status), Hub/Send what a line from a subscriber does (_send) and how a
--   subscriber leaves (_remove). A definition has the name of its method without the underscore.
-- * Update/Uf2 models validate_firmware_uf2 of tools/rpi-hub/bosun_hub/update_package.py.
-- * Update/Upload models _chunk of tools/rpi-hub/bosun_hub/update_service.py, with the faults of the
--   disk as an argument.
-- * Update/Jobs and its children model the saved jobs of UpdateService: Jobs has _load, _save,
--   _directory, _remember_recovery and allows_local_ping; Jobs/Requests has _begin, _commit, _recover
--   and the abort; Jobs/Handle has handle, with _chunk by way of Update/Upload; Jobs/Work has what
--   the tasks _run and _run_recovery do to the service between their waits, and sequences of events.
--   Jobs/Interrupted proves what holds of a job that a restart cut off.
-- * Install models FirmwareInstaller.run of tools/rpi-hub/bosun_hub/firmware_install.py: Snapshot has
--   the checks of a configuration (_require_snapshot, _compare_snapshot), Action the calls out of the
--   transaction with its local variables, Transaction the stages of run and its handlers, and
--   Inventory the loop of _patch_inventory; Evidence has read_prewrite_recovery and
--   verify_prewrite_recovery. The children of Transaction prove, stage by stage, what
--   holds after a return and after an exception.
-- * Base has the shared types, dicts, lists and tests; Json has JSON documents as json.loads
--   returns them. Tests has test data, and the theorems at concrete inputs.
--
-- Interfaces and parameters: `Json` (Json.antt) is json.loads and the two forms of json.dumps;
-- `Updates` (Hub/Send.antt) is what the hub asks of UpdateService, which Hub/Send/Maintenance fills
-- with the model of it; `Host` (Update/Jobs/Requests) is what UpdateService reads of the hub, the clock
-- and the disk; `decode` and `encode`
-- (Link/Receive, Link/Pump) are bytes.decode("utf-8", "replace") and str.encode("utf-8");
-- `b64decode` (Update/Upload) is base64.b64decode; `parse` (Link/Sentinel) is the strict decoding and
-- json.loads of one line; `Calls` (Install/Action) is InstallIO, the validated package and the files of
-- a job, and `Place` (Install/Evidence) those of a recovery, where each call may return or raise
-- anything; `Builtins` (Install/Snapshot) is str() and
-- Python's == on floating-point numbers. Nothing is assumed of any of them.
--
-- State: the hub's operations run on one asyncio thread, so each is a function from hub to hub. The
-- calls of Subscription._offer are listed in `offers` in order. Subscribers are numbers; the set of
-- them is a list, whose order stands for whatever order the set is walked in. Patch flights are
-- objects that two dicts share, and stand in `flights` under a reference. A timer is a handle with
-- the call that it makes. A raised TypeError is an Outcome. The random part of an id prefix is an
-- arbitrary text in the hub's state. The history of an installation (`flash`, `loads` and `seen` of its
-- variables) and of a recovery (the list of Sight) is kept for the theorems; no step reads it.
--
-- Bounds: the queues and limits are those of the source (256 commands, 512 lines, 64 and 32
-- requests, 1 MiB of received bytes, 16 KiB chunks). Every loop is structural recursion but two.
-- _patch_inventory has fuel for 626 pages, and is proved to end within them. The nesting of a context
-- or patch flight that fails as soon as it starts has fuel for two levels: a failure hands the
-- waiting batch to the next flight, and nobody waits behind that one.
--
-- Not modelled: the transports, which are system calls; the rest of the link thread (_open_and_sync,
-- _run); Subscription.lines, subscribe, start and stop; logging; how _run and _run_recovery wait for
-- the hub and the link; the update package's archive; LinuxInstallIO and _ProtocolClient; the servers, discovery and MIDI
-- wiring; the firmware and the editor.
pub mod Base
pub mod Json
pub mod Link
pub mod Subscription
pub mod Hub
pub mod Update
pub mod Install
mod Tests
