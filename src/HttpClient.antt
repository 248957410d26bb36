-- ===== src/HttpClient.antt =====
-- http_client/: the extractors, the explorer, the crawl and the downloader over httpx.
pub mod Extractors
pub mod Extracted
pub mod Explorer
pub mod Explored
pub mod Crawl
pub mod Downloader
pub mod Info
