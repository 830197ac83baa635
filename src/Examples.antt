-- ===== src/Examples.antt =====
-- The theorems about the parts of crates/privchat-sdk/src applied to concrete inputs.
mod SyncRuns
mod PipelineRuns
mod UploadRuns
mod ConnectionRuns
mod OutboxRuns
mod InboundRuns
mod MediaRuns
mod DownloadRuns
mod FlowRuns
mod RepairRuns
