-- ===== src/Driver/Invariant.antt =====
-- What holds between the steps of Driver/System.antt, if no reply is accepted too early or too late.
mod Defs
mod Lists
mod DaemonMoves
mod ClientMoves
mod Steps
pub use Defs.*
pub use Lists.*
pub use Steps.*
