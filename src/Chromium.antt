-- ===== src/Chromium.antt =====
-- chromium/supervisor.py: one client kept attached to the browser.
pub mod Supervisor
pub mod Protocol
pub mod Backoff
pub mod Tests
