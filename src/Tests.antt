-- ===== src/Tests.antt =====
-- Concrete tables and requests, and the theorems at them.
mod Data
mod AlertExamples
mod AuthExamples
mod MonitorExamples
mod RetentionExamples
mod NotificationExamples
mod SetupExamples
