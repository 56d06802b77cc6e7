-- ===== src/Industry/Indexing.antt =====
-- What Load of market/industry/cache.go makes available.
use expert_octo_enigma.Prelude.{
  ℕ, String, ◌≡◌, refl, ap, ◌∙◌, sym, true, Option, none, some, List, [], ◌∷◌, ◌++◌, arith, keep,
  str_eq, eq_iff, append_assoc, append-nil, Bool-cases, inl, inr,
}
use expert_octo_enigma.Table.{Table, lookup, insert, lookup-insert}
use expert_octo_enigma.Lock.{done, free, Guarded}
use expert_octo_enigma.Industry.{
  IndustryInfo, IndustryMapping, Cache, or_empty, append_to, index_all, indexed, load, load_with,
  get_all_stocks, get_stocks_by_industry, get_stocks_by_sector,
}

-- Those whose text is the wanted one.
abbrev pub matching : (IndustryInfo → String) → String → List IndustryInfo → List IndustryInfo
matching text wanted = keep (λ i. str_eq (text i) wanted)

lookup-append_to :
    {A : Type 0} (key wanted : String) (x : A) (m : Table (List A))
    → or_empty (lookup wanted (append_to key x m))
      ≡ or_empty (lookup wanted m) ++ keep (λ _. str_eq key wanted) (x ∷ [])
unfolding append_to
lookup-append_to key wanted x m = elim (Bool-cases (str_eq key wanted)) [
  | inl b ↦
      ground (
        arith,
        b,
        eq_iff key wanted,
        lookup-insert key wanted (or_empty (lookup key m) ++ x ∷ []) m,
      )
  | inr b ↦ ground (
    arith,
    b,
    append-nil (or_empty (lookup wanted m)),
    lookup-insert key wanted (or_empty (lookup key m) ++ x ∷ []) m,
  )
]

step-matching :
    (text : IndustryInfo → String) (wanted : String) (i : IndustryInfo) (rest : List IndustryInfo)
    (m : Table (List IndustryInfo))
    → or_empty (lookup wanted (append_to (text i) i m)) ++ matching text wanted rest
      ≡ or_empty (lookup wanted m) ++ matching text wanted (i ∷ rest)
step-matching text wanted i rest m =
    ap (λ l. l ++ matching text wanted rest) (lookup-append_to (text i) wanted i m)
    ∙ append_assoc (or_empty (lookup wanted m)) (keep (λ _. str_eq (text i) wanted) (i ∷ []))
        (matching text wanted rest)
    ∙ ap (λ l. or_empty (lookup wanted m) ++ l) (ground arith)

module _ {F : Type 0} where
  industry-index_all :
      (wanted : String) (stocks : List IndustryInfo) (c : Cache F)
      → or_empty (lookup wanted (index_all stocks c).industry_map)
        ≡ or_empty (lookup wanted c.industry_map) ++ matching (λ i. i.sw_industry) wanted stocks
  unfolding index_all
  industry-index_all wanted [] c = sym (append-nil (or_empty (lookup wanted c.industry_map)))
  industry-index_all wanted (i ∷ rest) c =
      industry-index_all wanted rest _
      ∙ step-matching (λ j. j.sw_industry) wanted i rest c.industry_map

  sector-index_all :
      (wanted : String) (stocks : List IndustryInfo) (c : Cache F)
      → or_empty (lookup wanted (index_all stocks c).sector_map)
        ≡ or_empty (lookup wanted c.sector_map) ++ matching (λ i. i.sw_sector) wanted stocks
  unfolding index_all
  sector-index_all wanted [] c = sym (append-nil (or_empty (lookup wanted c.sector_map)))
  sector-index_all wanted (i ∷ rest) c =
      sector-index_all wanted rest _ ∙ step-matching (λ j. j.sw_sector) wanted i rest c.sector_map

  mapping-index_all :
      (stocks : List IndustryInfo) (c : Cache F) → (index_all stocks c).mapping ≡ c.mapping
  unfolding index_all
  mapping-index_all [] c = refl
  mapping-index_all (i ∷ rest) c = mapping-index_all rest _

  -- When the cache's lock is free and a file is read, the load succeeds and leaves the lock free, and
  -- whatever was loaded before: the stocks are those of the file, and the stocks of an industry and of
  -- a sector are those of the file that name it, in their order.
  pub load_then_lookup :
      (now : ℕ) (m : IndustryMapping F) (g : Guarded (Cache F)) (industry sector : String)
      → g.mu ≡ free
      → (h : Guarded (Cache F)) × (load now (some m) g ≡ done (true, h))
        × (h.mu ≡ free)
        × (get_all_stocks h ≡ done (m.stocks, h))
        × (get_stocks_by_industry industry h
            ≡ done (matching (λ i. i.sw_industry) industry m.stocks, h))
        × (get_stocks_by_sector sector h ≡ done (matching (λ i. i.sw_sector) sector m.stocks, h))
  unfolding expert_octo_enigma.Table.lookup load load_with indexed get_all_stocks
      get_stocks_by_industry get_stocks_by_sector
  load_then_lookup now m g industry sector e =
      let c : Cache F = record (g.inner) {
        mapping = some m;
        symbol_map = [];
        industry_map = [];
        sector_map = [];
      } in
      let h : Guarded (Cache F) = record { mu = free; inner = indexed now m g.inner } in
      (
        h,
        rw e refl,
        refl,
        ap (λ (o : Option (IndustryMapping F)). done (elim o [ none ↦ [] | some x ↦ x.stocks ], h))
            (mapping-index_all m.stocks c),
        ap (λ l. done (l, h)) (industry-index_all industry m.stocks c),
        ap (λ l. done (l, h)) (sector-index_all sector m.stocks c),
      )
