-- ===== src/Edge/Range.antt =====
-- The peak and the persistence of internal/edge/decay.go.
use ai_trading_v.Prelude.{arith, if◌then◌else◌, List, [], ◌∷◌, All, map}
use ai_trading_v.Float.{Float64, ◌<?◌, ◌≼◌}
use ai_trading_v.Float.Laws.{Ieee}
use ai_trading_v.Edge.Figures.{largest, smallest, decay_of, analyze_decay}

module _ {F : Type 0} ⦃f : Float64 F⦄ (laws : Ieee F) where
  larger_of :
      (a c : F)
      → a ≼ a
      → c ≼ c
      → (a ≼ (if a <? c then c else a))
        × (c ≼ (if a <? c then c else a))
        × ((if a <? c then c else a) ≼ (if a <? c then c else a))
  larger_of a c h k = ground (arith, h, k, laws.le_total a c h k)

  smaller_of :
      (a c : F)
      → a ≼ a
      → c ≼ c
      → ((if c <? a then c else a) ≼ a)
        × ((if c <? a then c else a) ≼ c)
        × ((if c <? a then c else a) ≼ (if c <? a then c else a))
  smaller_of a c h k = ground (arith, h, k, laws.le_total a c h k)

  -- The largest of a start and a list is above the start and every element.
  largest_above :
      (best : F) (cs : List F)
      → best ≼ best
      → All (λ c. c ≼ c) cs
      → (best ≼ largest best cs) × All (λ c. c ≼ largest best cs) cs
  unfolding largest
  largest_above best [] h hs = (h, tt)
  largest_above best (c ∷ cs) h hs =
      let one = larger_of best c h hs.0 in
      let rest = largest_above (if best <? c then c else best) cs one.2 hs.1 in
      (laws.le_trans best _ _ one.0 rest.0, (laws.le_trans c _ _ one.1 rest.0, rest.1))

  smallest_below :
      (best : F) (cs : List F)
      → best ≼ best
      → All (λ c. c ≼ c) cs
      → (smallest best cs ≼ best) × All (λ c. smallest best cs ≼ c) cs
  unfolding smallest
  smallest_below best [] h hs = (h, tt)
  smallest_below best (c ∷ cs) h hs =
      let one = smaller_of best c h hs.0 in
      let rest = smallest_below (if c <? best then c else best) cs one.2 hs.1 in
      (laws.le_trans _ _ best rest.0 one.0, (laws.le_trans _ _ c rest.0 one.1, rest.1))

  -- Where the absolute values of the correlations are numbers, each of them is from the persistence to
  -- the peak of AnalyzeDecay.
  pub analyze_decay_range :
      (cs : List F)
      → All (λ c. c ≼ c) (map (λ x. f.abs x) cs)
      → All
          (λ c. ((analyze_decay cs).persistence ≼ c) × (c ≼ (analyze_decay cs).peak_corr))
          (map (λ x. f.abs x) cs)
  unfolding analyze_decay decay_of
  analyze_decay_range [] h = tt
  analyze_decay_range (c ∷ cs) h =
      let rest = map (λ x. f.abs x) cs in
      let up = largest_above (f.abs c) rest h.0 h.1 in
      let down = smallest_below (f.abs c) (f.abs c ∷ rest) h.0 h in
      ((down.0, up.0), both _ _ rest down.1.1 up.1)
    where
      both :
          (low high : F) (ds : List F)
          → All (λ d. low ≼ d) ds
          → All (λ d. d ≼ high) ds
          → All (λ d. (low ≼ d) × (d ≼ high)) ds
      both low high [] a b = tt
      both low high (d ∷ ds) a b = ((a.0, b.0), both low high ds a.1 b.1)
