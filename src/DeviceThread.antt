-- ===== src/DeviceThread.antt =====
-- src/devicethread.cpp: the thread of one driver. The driver's library, the broker and the other
-- threads are arguments: `Library` says how their calls end, and a list of polls says what happens
-- in each round of a work loop. What the thread calls is returned as a list of effects. Its argument
-- is the item that started it, so that it is not NULL.
mod Symbols
mod Loops
pub mod Start
pub mod Callback
pub mod Protocol
pub mod Leaks
pub mod Traffic
pub mod Outcome
pub mod Sent
pub mod Control
pub mod Stopped
pub mod Delivery
pub mod Race
pub mod Release
pub use Symbols.{has_proc, Resolution, found, missing, has_proc-resolve_optional}
unfoldable pub use Symbols.{
  proc_number, assign, resolve, resolve_optional, required1, optional1, required2,
}
pub use Loops.{
  Effect, dl_open, dl_close, open_driver, close_driver, get_level, connect, disconnect, ready,
  receive, discover, publish, sleep, lock, unlock, Poll, stop, quiet, failed, got, Loop,
}
unfoldable pub use Loops.{
  send_event, publish_all, after_poll, work_loop, round_blocking, round_non_blocking, round_level2,
}
