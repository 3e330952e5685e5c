-- ===== src/Access.antt =====
-- Access by login challenges: internal/service/access_login_challenge.go.
pub mod Login
