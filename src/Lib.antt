-- ===== src/Lib.antt =====
-- The client core of privchat-sdk (crates/privchat-sdk): the parts of the Rust library that decide, as
-- functions on explicit state, with theorems on what they promise. The actor of
-- crates/privchat-sdk/src/lib.rs owns one connection, one sync coordinator and one receive pipeline; the
-- local store keeps messages and the outbox; uploads run beside it.
--
-- Module Base: shared names, Boolean tests, lists with native lengths, signed integers, 32- and 64-bit
--   arithmetic with its saturation and wrap, texts as lists of code points.
-- Module Sync: crates/privchat-sdk/src/sync_coordinator.rs. `SyncCoordinator` is a record, every method that
--   changes it a function that returns the new record. The actor asks `begin` before each sync run and
--   reports with `complete`, `fail` or `abandon`. Children: Delay (backoff), Gate (what `begin` admits),
--   Trace (sequences of calls), HotLoop (triggers that call again and again), Background (convergence).
-- Module Pipeline: crates/privchat-sdk/src/receive_pipeline.rs and sync_commit_applier.rs, and the two loops
--   of lib.rs that drain and apply. A `HashSet` is a list of its members. Children: Key, Window (with
--   Replay), Drain.
-- Module Upload: crates/privchat-sdk/src/resumable_upload.rs. Sizer (plan and request size, with Grid), Gaps
--   (missing ranges and their pieces, with Coverage, Pieces and Measure), Transfer (the state of an upload, with
--   Progress), Verdict (responses), Session (records for a later resume). Of lib.rs: Chunks, the loop of
--   `upload_in_chunks` (with Ends and Returns), and Plan, the order of preparations, claims and uploads in
--   `plan_attachment_upload` (with Order and Chunked). The server and the files are a world that the calls
--   of an interface change.
-- Module Errors: the `Error` of lib.rs and crates/privchat-sdk/src/error_codes.rs. Children: Auth (codes in
--   messages and their kinds), Resume (classes and escalation of a failed resume).
-- Module Connection: the session's state machine, its guards, transport health, the reconnect driver and the
--   authentication retry of lib.rs. Children: Machine, Liveness, Retry, and Driver, an attempt of the retry
--   driver with its answers as a script, and `Command::Connect` (with Keeps, Restored, Outcome, Spin and Command).
-- Module Media: crates/privchat-sdk/src/media_download.rs. Registry is `DownloadManager` with the flags of its
--   tasks by their id (with Entries, Sound, Tasks, Cancel and Restart); Download is `run_download` (with
--   Run, Stream, Resume, Finish and Stuck) over replies, turns of its loop and results of file operations;
--   Attachment is crates/privchat-sdk/src/attachment_crypto.rs (with RoundTrip); Sealed is the sealed copy of
--   `seal_once` in lib.rs and `write_sealed_cache` (with Reuse).
-- Module Repair: `handle_resume_failure`, the scoped repairs, and the entity families of `execute_resume_sync`
--   in lib.rs, with the answers of the server and the store as a script. Children: Marks, Families.
-- Module AntiEntropy: the planning of anti-entropy pages of lib.rs. Children: Page, Scan.
-- Module Outbox: the outbox transactions of crates/privchat-sdk/src/local_store.rs, on a table of messages and
--   one of outbox rows. A transaction that fails leaves the tables. Children: Rows, Delivery, Queued.
-- Module Inbound: the canonical form of messages of crates/privchat-sdk/src/canonical_inbound.rs and the
--   duplicate window of room broadcasts of lib.rs. Children: Agreement, Room.
-- Module Examples: the theorems at concrete inputs.
--
-- Bounds and fuel: `split_gap` has the length of the gap as fuel, enough as each piece takes a byte;
-- `drain_batches` one more than the batches queued; the decimal digits of a number the number itself.
-- Both loops are proved to end with their fuel. The loop of `upload_in_chunks` has three for each byte
-- and three more, proved enough for a server that forgets no byte, confirms no chunk that it then misses,
-- and reports exactly what it misses. Times are integers, attempts `u32` and offsets `u64` with their
-- saturation or wrap written out.
--
-- Parameters: AES-GCM, base64 and SHA-256, the server of an upload, the applying of a batch, the transport,
-- the driver of an authentication, the random jitter, the floating-point rates of an upload, and the error numbers of the protocol crate. Not modelled:
-- network and file I/O beyond its results, the semaphores that bound running downloads, the sweep over old
-- sealed copies, JSON, the SQL engine beyond the statements of the outbox, the FFI.
pub mod Base
pub mod Sync
pub mod Pipeline
pub mod Upload
pub mod Errors
pub mod Connection
pub mod AntiEntropy
pub mod Inbound
pub mod Outbox
pub mod Media
pub mod Repair
pub mod Examples
