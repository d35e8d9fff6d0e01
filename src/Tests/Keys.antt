-- ===== src/Tests/Keys.antt =====
-- Keys of internal/ast/store/store.go, and the checks of internal/utils/utils.go.
use dotfs_mcp_server.Base.{
  ◌≡◌, ◌≢◌, ◌≤◌, ◌<◌, refl, false, txt, bytes_eq, nat_eq, has_prefix, contains, occurs, length,
  trim_space,
}
use dotfs_mcp_server.Ast.{blank}
use dotfs_mcp_server.Store.Keys.Layout.{IsPlainRecord, SameSymbol, primary_key-injective}
use dotfs_mcp_server.Utils.Names.{validate_repo_name, validate_repo_name_safe, matches_name}
use dotfs_mcp_server.Utils.Paths.{dot, dot_dot}
use dotfs_mcp_server.Tests.Data.{add_record}

add_record-IsPlainRecord : IsPlainRecord add_record
unfolding occurs has_prefix bytes_eq nat_eq
add_record-IsPlainRecord = record { repo = refl; file = refl; kind = refl; name = refl }

primary_key-injective_example : SameSymbol add_record add_record
primary_key-injective_example =
    primary_key-injective add_record add_record 0 0 add_record-IsPlainRecord
      add_record-IsPlainRecord refl refl refl

validate_repo_name_safe_example :
    (contains (txt "demo-1") b'/' ≡ false)
    × (contains (txt "demo-1") b'\x5c' ≡ false)
    × (occurs dot_dot (txt "demo-1") ≡ false)
    × (txt "demo-1" ≢ dot)
    × (0 < length (txt "demo-1"))
    × (length (txt "demo-1") ≤ 128)
unfolding validate_repo_name occurs has_prefix bytes_eq nat_eq blank trim_space matches_name
validate_repo_name_safe_example = validate_repo_name_safe (txt "demo-1") refl
