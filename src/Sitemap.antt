-- ===== src/Sitemap.antt =====
-- lib/sitemap: what the ingest of a sitemap computes.
pub mod Slug
