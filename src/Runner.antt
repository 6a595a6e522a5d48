-- ===== src/Runner.antt =====
-- runtime/src/frappe_runtime/runner.py: the web app, the jobs and the scheduler in one process. Times
-- are natural numbers of one unit; what the threads do is a list of what they meet, in order.
pub mod Config
pub mod Traffic
pub mod Restart
pub mod Signals
pub mod Source
pub mod Jobs
mod Tests
