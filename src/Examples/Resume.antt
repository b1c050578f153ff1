-- ===== src/Examples/Resume.antt =====
-- examples/http_resume_stream/main.go: a download that goes on, after a broken connection, from the
-- byte where it stopped. Headers are lists of ASCII codes, bytes are numbers.
pub mod Range
pub mod Server
pub mod Client
pub mod Parsed
pub mod Served
pub mod Downloaded
pub mod Verified
