-- ===== src/Industry.antt =====
-- market/industry/cache.go: the cache of the stocks' industries. What the file holds when it is read is
-- an argument of a load, `none` for a file that cannot be read or parsed. The entries are shared by
-- pointer and never changed, so that they stand in the indexes as values; a nil list is empty. Of the
-- goroutines, `spawned` counts the single reloads and `reloading` the reloads at intervals, of which a
-- tick is a load.
pub mod Indexing
pub mod Reloading
mod Tests
use expert_octo_enigma.Prelude.{
  ℕ, zero, suc, ◌+◌, String, Bool, true, false, not, ◌&&◌, Option, none, some, List, [], ◌∷◌, ◌++◌,
  if◌then◌else◌, str_eq, length, keep,
}
use expert_octo_enigma.Prelude.Int.{ℤ, pos, ltb_ℤ, sub_ℕ}
use expert_octo_enigma.Table.{Table, lookup, insert}
use expert_octo_enigma.Lock.{
  Method, Outcome, done, blocked, crashed, ◌>>=◌, ◌>>◌, pure, gets, modify, locked, r_locked, free,
  Guarded,
}

pub record IndustryInfo : Type 0 where
  pub symbol : String
  pub name : String
  pub sw_industry : String
  pub sw_sector : String
  pub csrc_industry : String
  pub market : String
  pub market_cap : String
  pub list_date : String

pub record IndustryMapping (F : Type 0) : Type 0 where
  pub description : String
  pub last_updated : String
  pub stocks : List IndustryInfo
  pub industry_list : List String
  pub benchmark_weights : Option (Table (Table F))

pub record Cache (F : Type 0) : Type 0 where
  pub mapping : Option (IndustryMapping F)
  pub symbol_map : Table IndustryInfo
  pub industry_map : Table (List IndustryInfo)
  pub sector_map : Table (List IndustryInfo)
  pub last_load : ℕ
  pub ttl : ℤ
  pub auto_reload : Bool
  pub stop_closed : Bool
  pub spawned : ℕ
  pub reloading : ℕ

pub record CacheStats : Type 0 where
  pub total_stocks : ℕ
  pub total_industries : ℕ
  pub total_sectors : ℕ
  pub last_load : ℕ
  pub is_expired : Bool

abbrev pub or_empty : {A : Type 0} → Option (List A) → List A
or_empty none = []
or_empty (some xs) = xs

-- `m[key] = append(m[key], x)`
unfoldable pub append_to : {A : Type 0} → String → A → Table (List A) → Table (List A)
append_to key x m = insert key (or_empty (lookup key m) ++ x ∷ []) m

unfoldable pub index_all : {F : Type 0} → List IndustryInfo → Cache F → Cache F
unfolding append_to
index_all [] c = c
index_all (i ∷ rest) c = index_all rest (record c {
  symbol_map = insert i.symbol i c.symbol_map;
  industry_map = append_to i.sw_industry i c.industry_map;
  sector_map = append_to i.sw_sector i c.sector_map;
})

module _ {F : Type 0} where
  pub new_cache : Cache F
  new_cache = record {
    mapping = none;
    symbol_map = [];
    industry_map = [];
    sector_map = [];
    last_load = 0;
    ttl = pos 86_400_000_000_000;
    auto_reload = false;
    stop_closed = false;
    spawned = 0;
    reloading = 0;
  }

  unfoldable pub indexed : ℕ → IndustryMapping F → Cache F → Cache F
  unfolding index_all
  indexed now m c =
      record (index_all m.stocks
        (record c { mapping = some m; symbol_map = []; industry_map = []; sector_map = [] })) {
          last_load = now;
        }

  unfoldable pub load_with : ℕ → Option (IndustryMapping F) → Method (Cache F) Bool
  unfolding indexed
  load_with now none = pure false
  load_with now (some m) = modify (indexed now m) >> pure true

  unfoldable pub load : ℕ → Option (IndustryMapping F) → Method (Cache F) Bool
  unfolding load_with
  load now file = locked (load_with now file)

  pub reload : ℕ → Option (IndustryMapping F) → Method (Cache F) Bool
  unfolding load
  reload now file = load now file

  unfoldable pub start_auto_reload : Cache F → Cache F
  start_auto_reload c = record c { auto_reload = true; reloading = c.reloading + 1 }

  -- The close of a channel that is closed panics. No goroutine waits any longer.
  unfoldable pub stop_auto_reload : Cache F → Outcome (Cache F)
  stop_auto_reload c =
      if not c.auto_reload
      then done c
      else if c.stop_closed
      then crashed
      else done (record c { stop_closed = true; auto_reload = false })

  -- The goroutine of a reload at intervals finds its channel closed, and returns.
  pub reload_stops : Cache F → Option (Cache F)
  reload_stops c = elim c.reloading [
    | zero ↦ none
    | suc n ↦ if c.stop_closed then some (record c { reloading = n }) else none
  ]

  pub is_expired : ℕ → Method (Cache F) Bool
  is_expired now = r_locked (gets (λ c. ltb_ℤ c.ttl (sub_ℕ now c.last_load)))

  pub get_stock_industry : ℕ → String → Method (Cache F) (Option IndustryInfo)
  unfolding is_expired
  get_stock_industry now symbol = r_locked (
      is_expired now >>= λ expired. gets (λ c. expired && not c.auto_reload) >>= λ reloads.
      modify (λ c. if reloads then record c { spawned = c.spawned + 1 } else c)
      >> gets (λ c. lookup symbol c.symbol_map))

  unfoldable pub get_all_stocks : Method (Cache F) (List IndustryInfo)
  get_all_stocks = r_locked (gets (λ c. elim c.mapping [ none ↦ [] | some m ↦ m.stocks ]))

  pub get_industry_list : Method (Cache F) (List String)
  get_industry_list = r_locked (gets (λ c. elim c.mapping [ none ↦ [] | some m ↦ m.industry_list ]))

  unfoldable pub get_stocks_by_industry : String → Method (Cache F) (List IndustryInfo)
  get_stocks_by_industry industry = r_locked (gets (λ c. or_empty (lookup industry c.industry_map)))

  unfoldable pub get_stocks_by_sector : String → Method (Cache F) (List IndustryInfo)
  get_stocks_by_sector sector = r_locked (gets (λ c. or_empty (lookup sector c.sector_map)))

  pub get_stocks_by_market_cap : String → Method (Cache F) (List IndustryInfo)
  get_stocks_by_market_cap cap = r_locked (
      gets
        (λ c. elim c.mapping [ none ↦ [] | some m ↦ keep (λ i. str_eq i.market_cap cap) m.stocks ]))

  weights_of : String → Option (Table (Table F)) → Option (Table F)
  weights_of benchmark none = none
  weights_of benchmark (some w) = lookup benchmark w

  pub get_benchmark_weights : String → Method (Cache F) (Option (Table F))
  unfolding weights_of
  get_benchmark_weights benchmark = r_locked (
      gets
        (λ c. elim c.mapping [ none ↦ none | some m ↦ weights_of benchmark m.benchmark_weights ]))

  pub get_last_updated : Method (Cache F) ℕ
  get_last_updated = r_locked (gets (λ c. c.last_load))

  pub set_ttl : ℤ → Method (Cache F) (Unit {0})
  set_ttl ttl = locked (modify (λ c. record c { ttl = ttl }))

  stats_of : Bool → Cache F → CacheStats
  stats_of expired c = record {
    total_stocks = length c.symbol_map;
    total_industries = length c.industry_map;
    total_sectors = length c.sector_map;
    last_load = c.last_load;
    is_expired = expired;
  }

  pub get_stats : ℕ → Method (Cache F) CacheStats
  unfolding is_expired stats_of
  get_stats now = r_locked (is_expired now >>= λ expired. gets (stats_of expired))
