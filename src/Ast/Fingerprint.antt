-- ===== src/Ast/Fingerprint.antt =====
-- internal/ast/model.go: the text that `Fingerprint` digests, and why it is unambiguous.
use dotfs_mcp_server.Base.{List, [], ◌∷◌, ◌++◌, Text, length, decimalz, decimal}
use dotfs_mcp_server.Ast.{SymbolRecord}

-- One part with its length in front, `%d:%s`.
unfoldable pub framed : List Text → Text
unfolding decimal
framed [] = []
framed (part ∷ parts) = decimal (length part) ++ (b':' ∷ (part ++ framed parts))

-- What `Fingerprint` writes into the hash.
unfoldable pub fingerprint_input : SymbolRecord → Text
unfolding framed decimalz
fingerprint_input r =
    framed (
      r.repo_name ∷ r.file_path ∷ r.language ∷ r.symbol_type ∷ r.name ∷ r.parent_scope
      ∷ r.documentation ∷ r.signature ∷ r.source_code ∷ r.aliases)
    ++ (decimalz r.start_byte
        ++ (b':'
            ∷ (decimalz r.end_byte
                ++ (b':' ∷ (decimalz r.start_line ++ (b':' ∷ decimalz r.end_line))))))

-- `Fingerprint`, over the digest that it is given.
unfoldable pub fingerprint : (Text → Text) → SymbolRecord → Text
unfolding fingerprint_input
fingerprint digest r = digest (fingerprint_input r)
