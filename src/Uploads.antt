-- ===== src/Uploads.antt =====
-- services/uploads.py and blueprints/uploads.py: the checks on an uploaded file, its storage and the
-- proxy that serves it.
pub mod Formats
pub mod Storage
