-- ===== src/Propagation.antt =====
-- propagation.go: the remaining time of a context as a header of an outgoing request.
pub mod Format
pub mod Reading
pub mod RoundTrip
pub mod Inject
