-- ===== src/Pipeline.antt =====
-- internal/pipeline: the middleware chain that a stream's events pass through.
pub mod Chain
pub mod Validate
pub mod Dedup
pub mod Batch
pub mod Generation
pub mod Middleware
pub mod Builder
mod Tests
