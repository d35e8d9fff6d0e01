-- ===== src/Utils/Files.antt =====
-- The file system as the program sees it: the answers of the calls of os and path/filepath.
use dotfs_mcp_server.Base.{ℕ, Bool, List, Text, Result}

-- `os.Stat`
pub record Info : Type 0 where
  pub is_dir : Bool
  pub size : ℕ

-- An entry of a directory listing or of a walk; `info` is what `d.Info()` gives.
pub record DirEntry : Type 0 where
  pub name : Text
  pub is_dir : Bool
  pub is_symlink : Bool
  pub info : Result Info

pub record FileSystem : Type 0 where
  pub eval_symlinks : Text → Result Text
  pub stat : Text → Result Info
  pub read_file : Text → Result Text
  pub read_dir : Text → Result (List DirEntry)
