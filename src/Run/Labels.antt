-- ===== src/Run/Labels.antt =====
-- The spelling of a strategy, and of a (page, strategy) pair as a key: run.service.ts, pairKey.
use Prim.Native.String
use pagespeed_auditor.Prelude.{String}
use pagespeed_auditor.Domain.{Strategy, mobile, desktop}

abbrev pub strategy_text : Strategy → String
strategy_text mobile = "mobile"
strategy_text desktop = "desktop"

-- `${pageId} ${strategy}`
unfoldable pub pair_key : String → Strategy → String
pair_key page_id strategy = String.◌++◌ page_id (String.◌++◌ " " (strategy_text strategy))
