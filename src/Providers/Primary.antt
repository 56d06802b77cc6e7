-- ===== src/Providers/Primary.antt =====
-- Which provider of market/providers/manager.go is the primary one.
use expert_octo_enigma.Prelude.{
  String, ◌≡◌, refl, ◌⊎◌, inl, inr, true, false, Option, none, some, List, [], ◌∷◌, ◌++◌, arith,
  if◌then◌else◌, ◌==◌, Bool-cases, str_eq, eq_iff, any, any-append, All-append, append-cons,
  append-nil, sym, subst, ◌∙◌, All,
}
use expert_octo_enigma.Prelude.Int.{ℤ, ltb_ℤ, ◌≤ℤ◌}
use expert_octo_enigma.Providers.{
  DataProvider, ProviderManager, new_provider_manager, add_provider, outranks, named,
  set_primary_provider, get_primary_provider,
}

unfoldable pub add_all : List DataProvider → ProviderManager → ProviderManager
add_all [] m = m
add_all (p ∷ ps) m = add_all ps (add_provider p m)

-- The primary provider stands among the candidates and none of them outranks it.
pub Leads : Option DataProvider → List DataProvider → Type 0
Leads none ps = ps ≡ []
Leads (some q) ps = (any (λ p. p.id == q.id) ps ≡ true) × All (λ p. p.priority ≤ℤ q.priority) ps

All-weaken :
    (q r : ℤ) (ps : List DataProvider)
    → All (λ p. p.priority ≤ℤ q) ps
    → q ≤ℤ r
    → All (λ p. p.priority ≤ℤ r) ps
All-weaken q r [] a h = tt
All-weaken q r (p ∷ ps) a h = (omega (arith, a.0, h), All-weaken q r ps a.1 h)

lead_step :
    (p : DataProvider) (o : Option DataProvider) (ps : List DataProvider)
    → Leads o ps
    → Leads (if outranks p o then some p else o) (ps ++ p ∷ [])
unfolding Leads
lead_step p none ps h = rw h (ground arith, (omega arith, tt))
lead_step p (some q) ps h = elim (Bool-cases (ltb_ℤ q.priority p.priority)) [
  | inl e ↦
      let up : q.priority ≤ℤ p.priority = ground (arith, e) in
      rw e (
        ground (arith, any-append (λ x. x.id == p.id) ps (p ∷ [])),
        All-append (λ x. x.priority ≤ℤ p.priority) ps (p ∷ [])
            (All-weaken q.priority p.priority ps h.1 up) ((omega arith), tt),
      )
  | inr e ↦
      let below : p.priority ≤ℤ q.priority = ground (arith, e) in
      rw e (
        ground (arith, any-append (λ x. x.id == q.id) ps (p ∷ []), h.0),
        All-append (λ x. x.priority ≤ℤ q.priority) ps (p ∷ []) h.1 (below, tt),
      )
]

add_all-Leads :
    (ps : List DataProvider) (m : ProviderManager)
    → Leads m.primary m.providers
    → Leads (add_all ps m).primary (add_all ps m).providers
unfolding add_all add_provider
add_all-Leads [] m h = h
add_all-Leads (p ∷ ps) m h =
    add_all-Leads ps (add_provider p m) (lead_step p m.primary m.providers h)

add_all-providers :
    (ps : List DataProvider) (m : ProviderManager) → (add_all ps m).providers ≡ m.providers ++ ps
unfolding add_all add_provider
add_all-providers [] m = sym (append-nil m.providers)
add_all-providers (p ∷ ps) m =
    add_all-providers ps (add_provider p m) ∙ sym (append-cons m.providers ps p)

-- Whatever providers are added to a new manager, in whatever order, the manager has exactly these; the
-- primary one is one of them and none has a higher priority, or there is none at all.
pub added_primary :
    (ps : List DataProvider)
    → let m = add_all ps new_provider_manager in (m.providers ≡ ps) × Leads m.primary ps
unfolding Leads new_provider_manager
added_primary ps =
    let e = add_all-providers ps new_provider_manager in
    let h = add_all-Leads ps new_provider_manager refl in
    (e, subst (Leads (add_all ps new_provider_manager).primary) e h)

named_any :
    (name : String) (ps : List DataProvider)
    → (named name ps ≡ none)
      ⊎ ((p : DataProvider) × (named name ps ≡ some p)
          × (p.name ≡ name)
          × (any (λ q. str_eq q.name name) ps ≡ true))
unfolding named
named_any name [] = inl refl
named_any name (p ∷ ps) = elim (Bool-cases (str_eq p.name name)) [
  | inl e ↦ inr (p, ground (arith, e), ground (arith, e, eq_iff p.name name), ground (arith, e))
  | inr e ↦ elim (named_any name ps) [
    | inl h ↦ inl (ground (arith, e, h))
    | inr (q, h, g, a) ↦ inr (q, ground (arith, e, h), g, ground (arith, a))
  ]
]

named_none :
    (name : String) (ps : List DataProvider)
    → named name ps ≡ none
    → any (λ q. str_eq q.name name) ps ≡ false
unfolding named
named_none name [] h = refl
named_none name (p ∷ ps) h = ground (arith, h, named_none name ps)

-- `SetPrimaryProvider` succeeds exactly if some provider has the name. The primary provider has that name
-- then, and otherwise the manager is unchanged; the providers and their health stay in both cases.
pub set_primary_iff :
    (name : String) (m : ProviderManager)
    → let (ok, n) = set_primary_provider name m in
      (ok ≡ any (λ q. str_eq q.name name) m.providers)
      × (get_primary_provider n ≡ (if ok then name else get_primary_provider m))
      × (n.providers ≡ m.providers)
      × (n.health ≡ m.health)
unfolding set_primary_provider get_primary_provider
set_primary_iff name m = elim (named_any name m.providers) [
  | inl h ↦ ground (arith, h, named_none name m.providers h)
  | inr (p, h, g, a) ↦ ground (arith, h, g, a)
]
