-- ===== src/Workshop.antt =====
-- tools/workshop/workshop_lock.py: pinned workshop items, and the build inputs that follow.
pub mod Lock
pub mod Refresh
pub mod Render
pub mod Splice
pub mod Fetch
pub mod Fetched
pub mod Rendered
mod Examples
