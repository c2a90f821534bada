-- ===== src/Audit/Keeps.antt =====
-- agent/audit/writer.py: what one locked block does to what holds of the sink, of the thread that
-- runs it, and of the other threads.
mod Frames
mod Blocks
mod Waits
mod Leader
pub use Blocks.{Safe, Differ}
pub use Leader.{advance-Safe}
pub use Frames.{written_of, flag_of}
