-- ===== src/Industry/Tests.antt =====
-- Runs of market/industry/cache.go and its theorems at concrete inputs.
use expert_octo_enigma.Prelude.{String, ◌≡◌, refl, true, false, none, some, [], ◌∷◌}
use expert_octo_enigma.Prelude.Int.{ℤ, pos}
use expert_octo_enigma.Lock.{done, free, Guarded}
use expert_octo_enigma.Industry.{
  IndustryInfo, IndustryMapping, Cache, load, get_all_stocks, get_stocks_by_industry,
  get_stocks_by_sector,
}
use expert_octo_enigma.Industry.Indexing.{load_then_lookup}

abbrev stock : String → String → IndustryInfo
stock symbol industry = record {
  symbol = symbol;
  name = "";
  sw_industry = industry;
  sw_sector = "a";
  csrc_industry = "";
  market = "";
  market_cap = "";
  list_date = "";
}

abbrev file : IndustryMapping ℤ
file = record {
  description = "";
  last_updated = "";
  stocks = stock "sh600000" "banks" ∷ stock "sh600519" "food" ∷ stock "sh601398" "banks" ∷ [];
  industry_list = "banks" ∷ "food" ∷ [];
  benchmark_weights = none;
}

abbrev cache : Cache ℤ
cache = record {
  mapping = none;
  symbol_map = [];
  industry_map = ("banks", stock "sh600036" "banks" ∷ []) ∷ [];
  sector_map = [];
  last_load = 0;
  ttl = pos 10;
  auto_reload = false;
  stop_closed = false;
  spawned = 0;
  reloading = 0;
}

load_then_lookup_example :
    (h : Guarded (Cache ℤ)) × (load 7 (some file) (record { mu = free; inner = cache })
      ≡ done (true, h))
    × (h.mu ≡ free)
    × (get_all_stocks h ≡ done (file.stocks, h))
    × (get_stocks_by_industry "banks" h
        ≡ done (stock "sh600000" "banks" ∷ stock "sh601398" "banks" ∷ [], h))
    × (get_stocks_by_sector "b" h ≡ done ([], h))
load_then_lookup_example =
    load_then_lookup 7 file (record { mu = free; inner = cache }) "banks" "b" refl

abbrev stopped_cache : Cache ℤ
stopped_cache = record cache { stop_closed = true; reloading = 1 }
