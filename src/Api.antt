-- ===== src/Api.antt =====
-- web/src/lib/api.ts: the types that the pages exchange with the server (`Types`, `Documents`,
-- `Catalogs`, `Activity` and `Results`), the session with the requests that it makes (`Session`), and the
-- uploads (`Upload`), and calls at the same time that share one renewal of the token (`Flight`).
pub mod Types
pub mod Documents
pub mod Catalogs
pub mod Activity
pub mod Results
pub mod Session
pub mod Upload
pub mod Flight
