-- ===== src/S3.antt =====
-- internal/s3: the S3 API over the coordinator.
pub mod Range
