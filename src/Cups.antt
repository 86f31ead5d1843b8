-- ===== src/Cups.antt =====
-- The CUPS add-on (cups): the history of print jobs, and the upload of scanned documents.
pub mod History
pub mod Upload
mod Tests
