-- ===== src/Notifications.antt =====
-- What happens to a subscriber: the queue of unsent notifications (notifications.go), and the
-- subscriptions by email and Slack (notifications2.go, users.go, alerts2.go).
pub mod Tables
pub mod Queue
pub mod Drain
pub mod Stamps
pub mod ReadLaws
pub mod Passes
pub mod DrainLaws
pub mod DrainRuns
pub mod IdlePasses
pub mod Subscribe
pub mod SubscribeLaws
pub mod ConfirmLaws
pub mod Unsubscribe
pub mod Request
pub mod RequestLaws
pub mod Settings
pub mod SettingsLaws
pub mod SettingsReads
pub mod SettingsRoundTrip
