-- ===== src/Auth.antt =====
-- admin-api/app/auth.py: the rate limiter, operator sessions, roles and the CSRF check, in the first four
-- children, whose names are passed on here. The others have the theorems.
mod Base
mod Limiter
mod Login
mod Access
pub mod RateLimit
pub mod Sessions
pub mod RoundTrip
mod Tests
pub use Base.*
unfoldable pub use Base.{role_rank, source_ip}
pub use Limiter.*
unfoldable pub use Limiter.{drop_old, check_deque, check}
pub use Login.*
unfoldable pub use Login.{
  verify_password, find_operator, find_session, delete_session, session_cookies, create_session,
  add_bootstrap_operator, ensure_bootstrap_operator, clear_session_cookies,
}
pub use Access.*
unfoldable pub use Access.{
  expired_session, admit, current_actor, check_role, require_role, check_csrf, require_csrf,
  require_mutation_role,
}
