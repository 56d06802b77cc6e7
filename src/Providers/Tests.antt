-- ===== src/Providers/Tests.antt =====
-- Runs of the provider manager of market/providers/manager.go.
use expert_octo_enigma.Prelude.{
  ℕ, ◌≡◌, refl, true, false, Option, none, some, [], ◌∷◌, if◌then◌else◌, str_eq,
}
use expert_octo_enigma.Prelude.Int.{pos}
use expert_octo_enigma.Table.{lookup}
use expert_octo_enigma.Providers.{
  DataProvider, ProviderManager, new_provider_manager, fetch_tick, is_healthy,
}
use expert_octo_enigma.Providers.Primary.{add_all, Leads, added_primary}

abbrev sina : DataProvider
sina = record { id = 1; name = "sina"; priority = pos 10 }

abbrev tencent : DataProvider
tencent = record { id = 2; name = "tencent"; priority = pos 20 }

abbrev both : ProviderManager
both = record {
  providers = sina ∷ tencent ∷ [];
  primary = some tencent;
  health = ("sina", true) ∷ ("tencent", true) ∷ [];
  stopped = false;
}

abbrev only_sina : DataProvider → Option ℕ
only_sina p = if str_eq p.name "sina" then some 7 else none

test_fetch : (fetch_tick only_sina both).answer ≡ some 7
unfolding fetch_tick is_healthy lookup
test_fetch = refl

added_primary_example :
    let m = add_all (sina ∷ tencent ∷ []) new_provider_manager in
    (m.providers ≡ sina ∷ tencent ∷ []) × Leads m.primary (sina ∷ tencent ∷ [])
added_primary_example = added_primary (sina ∷ tencent ∷ [])
