-- ===== src/Access/Login.antt =====
-- Login by a challenge that is sent to an email address: the state and the environment of
-- `accessLoginChallengeService` of internal/service/access_login_challenge.go.
pub mod Policy
pub mod Metadata
pub mod Challenges
pub mod Create
pub mod Verify
pub mod Laws
pub mod Requests
pub mod Guarded
pub mod Spent
pub mod Once
pub mod Proven
pub mod Limited
pub mod Again
pub mod Lockout
