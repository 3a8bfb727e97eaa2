-- ===== src/Ingestion.antt =====
-- app/services/ingestion_service.py and app/extraction: from a file to the chunks of its text.
pub mod Splitter
pub mod Extraction
pub mod Service
