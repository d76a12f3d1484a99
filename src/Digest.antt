-- ===== src/Digest.antt =====
-- src/digest.rs and src/digest/sexp.rs
pub mod Sexp
