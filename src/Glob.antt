-- ===== src/Glob.antt =====
-- glob.c: the expansion of wildcards against the file system.
pub mod Expand
