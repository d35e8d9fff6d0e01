-- ===== src/Mcpserver/Retrieval/Laws.antt =====
-- internal/mcpserver/server.go: what the tools answer over the store and the indexer.
use dotfs_mcp_server.Base.{
  ◌≡◌, ◌<◌, refl, Bool, true, false, Option, List, [], ◌∷◌, Text, txt, length, contains, trim_space,
  bytes_eq, Any, ok, Error,
}
use dotfs_mcp_server.Ast.{SymbolRecord, blank}
use dotfs_mcp_server.Ast.Fingerprint.{fingerprint}
use dotfs_mcp_server.Store.Keys.Esc.{IsPlain}
use dotfs_mcp_server.Store.Backend.{Backend, IsUtf8, IsLawful}
use dotfs_mcp_server.Store.Put.{put_symbol}
use dotfs_mcp_server.Store.Lookup.{lookup}
use dotfs_mcp_server.Store.Lookup.Laws.Complete.{lookup-put}
use dotfs_mcp_server.Indexer.Options.{Indexer}
use dotfs_mcp_server.Indexer.Files.{Node}
use dotfs_mcp_server.Capabilities.{Matrix}
use dotfs_mcp_server.Mcpserver.{Request, Deps, Codec, render_json}
use dotfs_mcp_server.Mcpserver.Arguments.{got}
use dotfs_mcp_server.Mcpserver.Arguments.Laws.{}
use dotfs_mcp_server.Mcpserver.Resolve.{Query, resolve, after_lookup}
use dotfs_mcp_server.Mcpserver.Resolve.Laws.{wired, filter_of}
use dotfs_mcp_server.Mcpserver.Queries.{lookup_symbol_query}
use dotfs_mcp_server.Mcpserver.Retrieval.{with_query, answer_all, handle_lookup_symbol}

-- A query for a name alone
abbrev pub plain_query : Text → Query
plain_query name = record { name = name; repo = []; types = []; exact = false }

module _ (db : Backend) (ix : Indexer) (ctx : Text → Option Error) (tree : Text → Node)
    (matrix : Matrix) (json : Codec) (live : Bool) where
  abbrev server : Deps db.State
  server = wired db ix ctx tree matrix json live

  answer_cached :
      (name : Text) (rs : List SymbolRecord) (P : SymbolRecord → Type 0) (t : db.State)
      → lookup db name (filter_of (plain_query name)) t ≡ ok rs
      → Any P rs
      → with_query server
          (answer_all server (txt "symbol") (txt "symbol lookup failed"))
          (got (plain_query name))
          t
        ≡ (render_json (json.records_json rs), t)
  unfolding with_query resolve after_lookup answer_all
  answer_cached name [] P t found h = absurd h
  answer_cached name (r ∷ rs) P t found h = rw (found, after_lookup)

  -- After a call of `PutSymbol` that stores a record in valid UTF-8 without an error, `lookup_symbol`
  -- with one of its names alone, if that name is not blank, holds no "%3A" and has no spaces around
  -- it, answers the JSON of what the cache returns, if the cache returns no error and fewer than 25
  -- records, and leaves the cache as it is, without a live search; a record with the fingerprint of
  -- the record is among the results then.
  pub handle_lookup_symbol-put :
      (L : IsLawful db) (rec : SymbolRecord) (s t : db.State) (k : Text) (changed : Bool)
      (name : Text) (req : Request) (rs : List SymbolRecord)
      → IsUtf8 rec
      → put_symbol db rec s ≡ (ok (k, changed), t)
      → contains (rec.name ∷ rec.aliases) name ≡ true
      → blank name ≡ false
      → IsPlain name
      → trim_space name ≡ name
      → lookup_symbol_query req ≡ got (plain_query name)
      → lookup db name (filter_of (plain_query name)) t ≡ ok rs
      → length rs < 25
      → (handle_lookup_symbol server req t ≡ (render_json (json.records_json rs), t))
        × Any (λ r. fingerprint db.digest r ≡ fingerprint db.digest rec) rs
  unfolding handle_lookup_symbol
  handle_lookup_symbol-put L rec s t k changed name req rs valid run named filled plain trimmed
        asked found few =
      let there =
        lookup-put db L rec s t k changed name name (filter_of (plain_query name)) rs valid run
          named filled plain trimmed refl refl found few in
      (rw asked (answer_cached name rs _ t found there), there)
