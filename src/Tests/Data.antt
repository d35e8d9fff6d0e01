-- ===== src/Tests/Data.antt =====
-- The records and the host of the tests.
use dotfs_mcp_server.Base.{
  true, false, [], ◌∷◌, Text, txt, ◌==◌, bytes_eq, Result, ok, err, message, pos, if◌then◌else◌,
}
use dotfs_mcp_server.Ast.{SymbolRecord, symbol_function, language_c}
use dotfs_mcp_server.Utils.Files.{FileSystem, Info}

abbrev pub add_record : SymbolRecord
add_record = record {
  repo_name = txt "demo";
  file_path = txt "a.c";
  language = language_c;
  symbol_type = symbol_function;
  name = txt "add";
  aliases = txt "plus" ∷ [];
  parent_scope = [];
  start_byte = pos 0;
  end_byte = pos 9;
  start_line = pos 1;
  end_line = pos 1;
  documentation = [];
  signature = txt "int add()";
  source_code = txt "int add()";
}

-- The declaration at the same place has lost its alias.
abbrev pub renamed_record : SymbolRecord
renamed_record = record add_record { aliases = [] }

-- A host with the directory /w/demo and the file /w/demo/a.c.
abbrev pub stat_of : Text → Result Info
stat_of path =
    if path == txt "/w/demo"
    then ok (record { is_dir = true; size = 0 })
    else ok (record { is_dir = false; size = 9 })

abbrev pub host : FileSystem
host = record {
  eval_symlinks = λ path. ok path;
  stat = stat_of;
  read_file = λ path. ok (txt "int add()");
  read_dir = λ path. ok (
      record { name = txt "demo"; is_dir = true; is_symlink = false; info = err (message []) }
      ∷ []);
}
