-- ===== src/Format.antt =====
-- cli/src/fmt: the formatter.
pub mod Doc
