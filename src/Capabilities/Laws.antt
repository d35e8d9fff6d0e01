-- ===== src/Capabilities/Laws.antt =====
-- internal/capabilities/capabilities.go: what the briefing depends on.
use mathlib.Core.List.{Perm}
use dotfs_mcp_server.Base.{◌≡◌, Text, Dict, ℕ}
use dotfs_mcp_server.Capabilities.{Matrix, Observation, describe, describe_footprint}
use dotfs_mcp_server.Capabilities.Order.{symbol_breakdown-eq_of_perm, language_stack-eq_of_perm}

-- The briefing does not depend on the order in which the maps of languages and of kinds are walked.
pub describe-eq_of_perm :
    (m : Matrix) (repo : Text) (obs : Observation) {languages symbol_types : Dict Text ℕ}
    → Perm obs.languages languages
    → Perm obs.symbol_types symbol_types
    → describe m repo obs
      ≡ describe m repo (record obs { languages = languages; symbol_types = symbol_types })
unfolding describe describe_footprint
describe-eq_of_perm m repo obs p q = rw (language_stack-eq_of_perm p, symbol_breakdown-eq_of_perm q)
