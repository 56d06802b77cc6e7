-- ===== src/Providers/Fallback.antt =====
-- Whom a fetch of market/providers/manager.go asks, and when it fails.
use expert_octo_enigma.Prelude.{
  ◌≡◌, refl, ◌⊎◌, inl, inr, ◌↔◌, true, false, not, ◌||◌, Option, none, some, List, [], ◌∷◌, arith,
  Bool-cases, Option-cases, str_eq, eq_iff, All,
}
use expert_octo_enigma.Table.{lookup-insert}
use expert_octo_enigma.Providers.{
  DataProvider, ProviderManager, Fetched, is_healthy, is_primary, ask_fallbacks, first_of,
  ask_first, fetch_tick, monitor_provider,
}

-- The provider is the primary one, or has another name than the first.
unfoldable pub Spared : DataProvider → Option DataProvider → DataProvider → Type 0
Spared p primary q = (is_primary q primary || not (str_eq p.name q.name)) ≡ true

spared :
    (p : DataProvider) (m : ProviderManager) (qs : List DataProvider)
    → All
        (λ q. (is_primary q m.primary || is_healthy q.name (monitor_provider p false m)) ≡ true)
        qs
    → All (Spared p m.primary) qs
unfolding Spared is_healthy monitor_provider
spared p m [] a = tt
spared p m (q ∷ qs) a = (
  ground (arith, a.0, lookup-insert p.name q.name false m.health, eq_iff p.name q.name),
  spared p m qs a.1,
)

module _ {A : Type 0} where
  -- The provider is no help: it is asked elsewhere, not healthy, or does not answer.
  abbrev pub Useless : (DataProvider → Option A) → ProviderManager → DataProvider → Type 0
  Useless ask m p = ((is_primary p m.primary || not (is_healthy p.name m)) ≡ true) ⊎ (ask p ≡ none)

  abbrev pub Silent : (DataProvider → Option A) → Option DataProvider → Type 0
  Silent ask none = Unit
  Silent ask (some p) = ask p ≡ none

  fallbacks_iff :
      (ask : DataProvider → Option A) (m : ProviderManager) (ps : List DataProvider)
      → ((ask_fallbacks ask m ps).answer ≡ none) ↔ All (Useless ask m) ps
  unfolding ask_fallbacks
  fallbacks_iff ask m [] = (λ e. tt, λ e. refl)
  fallbacks_iff ask m (p ∷ ps) =
      let ih = fallbacks_iff ask m ps in
      elim (Bool-cases (is_primary p m.primary || not (is_healthy p.name m))) [
        | inl b ↦ (λ e. (inl b, ih.0 (ground (arith, b, e))), λ h. ground (arith, b, ih.1 h.1))
        | inr b ↦ elim (Option-cases (ask p)) [
          | inl n ↦
              (λ e. (inr n, ih.0 (ground (arith, b, n, e))), λ h. ground (arith, b, n, ih.1 h.1))
          | inr (a, n) ↦
              (λ e. absurd (ground (arith, b, n, e)), λ h. absurd (ground (arith, b, n, h.0)))
        ]
      ]

  with_primary :
      {R : Type 0} (ask : DataProvider → Option A) (o : Option DataProvider) (later : Fetched A)
      → ((later.answer ≡ none) ↔ R)
      → ((ask_first ask o later).answer ≡ none) ↔ (Silent ask o × R)
  with_primary ask none later ih = (λ e. (tt, ih.0 e), λ h. ih.1 h.1)
  with_primary ask (some p) later ih = elim (Option-cases (ask p)) [
    | inl n ↦ (λ e. (n, ih.0 (ground (arith, e, n))), λ h. ground (arith, n, ih.1 h.1))
    | inr (a, n) ↦ (λ e. absurd (ground (arith, n, e)), λ h. absurd (ground (arith, n, h.0)))
  ]

  -- A fetch fails exactly if the primary provider, where there is one, does not answer, and each other
  -- provider is not healthy or does not answer. For `FetchKLines` an empty answer is none.
  pub fetch_fails_iff :
      (ask : DataProvider → Option A) (m : ProviderManager)
      → ((fetch_tick ask m).answer ≡ none)
        ↔ (Silent ask m.primary × All (Useless ask m) m.providers)
  unfolding fetch_tick
  fetch_fails_iff ask m =
      with_primary ask m.primary (ask_fallbacks ask m m.providers) (fallbacks_iff ask m m.providers)

  first_asked :
      (P : DataProvider → Type 0) (p : DataProvider) (o : Option A) (later : Fetched A)
      → P p
      → All P later.asked
      → All P (first_of p o later).asked
  first_asked P p none later h a = (h, a)
  first_asked P p (some x) later h a = (h, tt)

  asked_fallbacks :
      (ask : DataProvider → Option A) (m : ProviderManager) (ps : List DataProvider)
      → All
          (λ p. (is_primary p m.primary || is_healthy p.name m) ≡ true)
          (ask_fallbacks ask m ps).asked
  unfolding ask_fallbacks
  asked_fallbacks ask m [] = tt
  asked_fallbacks ask m (p ∷ ps) =
      let ih = asked_fallbacks ask m ps in
      elim (Bool-cases (is_primary p m.primary)) [
        | inl b ↦ rw b ih
        | inr b ↦ elim (Bool-cases (is_healthy p.name m)) [
          | inl h ↦
              rw (b, h)
                (first_asked (λ p. (is_primary p m.primary || is_healthy p.name m) ≡ true) p (ask p)
                  (ask_fallbacks ask m ps) (ground (arith, h)) ih)
          | inr h ↦ rw (b, h) ih
        ]
      ]

  led :
      (ask : DataProvider → Option A) (P : Option DataProvider → DataProvider → Type 0)
      (o : Option DataProvider) (later : Fetched A)
      → ((q : DataProvider) → P (some q) q)
      → All (P o) later.asked
      → All (P o) (ask_first ask o later).asked
  led ask P none later h a = a
  led ask P (some p) later h a = first_asked (P (some p)) p (ask p) later (h p) a

  -- After a health check of a provider that failed, no fetch asks a provider of that name, unless it is the
  -- primary one, whatever the providers answer.
  pub failed_not_asked :
      (ask : DataProvider → Option A) (p : DataProvider) (m : ProviderManager)
      → All (Spared p m.primary) (fetch_tick ask (monitor_provider p false m)).asked
  unfolding fetch_tick monitor_provider Spared
  failed_not_asked ask p m =
      let n = monitor_provider p false m in
      led ask (Spared p) m.primary (ask_fallbacks ask n m.providers) (λ q. ground arith)
        (spared p m (ask_fallbacks ask n m.providers).asked (asked_fallbacks ask n m.providers))
