-- ===== src/Driver/Progress.antt =====
-- No request is lost and no wake-up is missed, if no reply is accepted too early or too late.
mod Defs
mod DaemonMoves
mod ClientMoves
mod Steps
pub use Defs.{Pending, Attended, Busy, Progress}
pub use Steps.{Reach-Progress}
