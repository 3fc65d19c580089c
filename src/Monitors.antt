-- ===== src/Monitors.antt =====
-- The checks of monitors: monitors2.go, from the attempts of one check to the notification.
pub mod Check
pub mod CheckLaws
pub mod Notify
pub mod NotifyLaws
pub mod WatchLaws
