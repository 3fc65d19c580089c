-- ===== src/Auth.antt =====
-- Who may log in and administer: the login limiter, users, sessions, invitations, the tokens that
-- carry a session to another domain, and the middleware in front of /admin.
pub mod Tables
pub mod Limiter
pub mod LimiterLaws
pub mod CrossTokens
pub mod Queries
pub mod Login
pub mod Users
pub mod Gate
pub mod GateLaws
pub mod SessionLaws
pub mod LoginRuns
pub mod LoginAccepts
pub mod InvitationLaws
pub mod CrossTokenLaws
pub mod DeletionLaws
pub mod Logout
pub mod UserLaws
