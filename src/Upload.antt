-- ===== src/Upload.antt =====
-- crates/privchat-sdk/src/resumable_upload.rs: the decisions of a chunked upload, without its IO.
pub mod Sizer
pub mod Gaps
pub mod Transfer
pub mod Verdict
pub mod Session
pub mod Chunks
pub mod Plan
