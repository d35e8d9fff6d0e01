-- ===== src/Store/Lookup/Order.antt =====
-- internal/ast/store/store.go: the order of `sortRecords` is strict, so the sort puts exact
-- matches first and never an earlier record behind a later one.
use dotfs_mcp_server.Base.{
  ◌≡◌, refl, true, false, Text, nat_eq, bytes_eq, less-IsTotal, ltz, ℤ, pos, negsuc, arith,
}
use dotfs_mcp_server.Ast.{SymbolRecord}
use dotfs_mcp_server.Store.Lookup.{record_less}

ltz_asym : (a b : ℤ) → ltz a b ≡ true → ltz b a ≡ false
unfolding ltz
ltz_asym (pos a) (pos b) h = ground arith
ltz_asym (pos a) (negsuc b) h = cc
ltz_asym (negsuc a) (pos b) h = refl
ltz_asym (negsuc a) (negsuc b) h = ground arith

pub record_less_asym :
    (query : Text) (a b : SymbolRecord)
    → record_less query a b ≡ true
    → record_less query b a ≡ false
unfolding record_less
record_less_asym query a b h = ground (
  arith,
  less-IsTotal.asym a.name b.name,
  less-IsTotal.asym a.repo_name b.repo_name,
  less-IsTotal.asym a.file_path b.file_path,
  ltz_asym a.start_byte b.start_byte,
)
