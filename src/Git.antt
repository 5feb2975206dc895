-- ===== src/Git.antt =====
-- internal/tool/git: what is computed from the output of git and of the forges.
pub mod Diff
pub mod Provider
