-- ===== src/Uri/RoundTrip.antt =====
-- Printing a URI and parsing the text gives the URI back.
pub mod Authority
pub mod Stages
pub mod Front
pub mod Scheme
pub mod Whole
