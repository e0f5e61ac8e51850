-- ===== src/Uri.antt =====
-- `servus::URI` (servus/uri.h, servus/uri.cpp): the data that a URI keeps, and its accessors. The
-- parser is in `Uri.Part`, `Uri.Authority`, `Uri.Query` and `Uri.Parse`, the printer in `Uri.Print`.
pub mod Data
pub mod Outcome
pub mod Object
pub mod Part
pub mod Authority
pub mod Query
pub mod Parse
pub mod Reference
pub mod RoundTrip
pub mod Compare
mod Tests
