-- ===== src/BackgroundTasks/Worker.antt =====
-- services/api/app/services/background_task_worker_service.py: the worker's operations on the
-- tables, each of which commits its own session.
mod Failure
mod Run
unfoldable pub use Failure.*
unfoldable pub use Run.*
