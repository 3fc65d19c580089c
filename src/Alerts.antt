-- ===== src/Alerts.antt =====
-- Alerts: the incidents and maintenance windows shown on the status page, their messages, the
-- services they name, the page's severity, and the queue of notifications to subscribers.
pub mod Tables
pub mod Queries
pub mod Severity
pub mod Handlers
pub mod SeverityLaws
pub mod Kept
pub mod Effects
pub mod SeverityRequests
pub mod Success
pub mod Requests
pub mod Frames
