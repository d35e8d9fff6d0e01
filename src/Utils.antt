-- ===== src/Utils.antt =====
-- internal/utils: repository names, paths inside the workspace, languages.
pub mod Paths
pub mod Files
pub mod Names
pub mod Below
pub mod Safe
