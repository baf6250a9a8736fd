-- ===== src/Backfill/Segments.antt =====
-- Segments of lists, and the rows of LoadCandlesAfter in internal/db/feature_store.go.
use ai_trading_v.Prelude.{
  ℕ, zero, suc, ◌+◌, ◌-◌, ◌≤◌, ◌<◌, ◌≡◌, refl, ap, arith, Bool, true, false, ◌==◌, ◌&&◌, ltb, List,
  [], ◌∷◌, ◌++◌, length, take, drop, get_or, map, drop-nil,
}
use ai_trading_v.Model.{Time, Candle}
use ai_trading_v.Backfill.Flow.{after}

pub lt_of_ltb : (a b : ℕ) → ltb a b ≡ true → a < b
lt_of_ltb a b h = ground (arith, h)

pub le_of_ltb : (a b : ℕ) → ltb a b ≡ false → b ≤ a
le_of_ltb a b h = ground (arith, h)

pub eq_of_test : (a b : ℕ) → (a == b) ≡ true → a ≡ b
eq_of_test a b h = ground (arith, h)

module _ {A : Type 0} where
  pub drop_all : (n : ℕ) (xs : List A) → length xs ≤ n → drop n xs ≡ []
  drop_all zero [] h = refl
  drop_all zero (x ∷ xs) h = absurd (omega arith)
  drop_all (suc n) [] h = refl
  drop_all (suc n) (x ∷ xs) h = drop_all n xs (omega arith)

  pub append_nil : (xs : List A) → xs ++ [] ≡ xs
  append_nil [] = refl
  append_nil (x ∷ xs) = ap (λ r. x ∷ r) (append_nil xs)

  pub drop-drop : (p q n : ℕ) (xs : List A) → p + q ≡ n → drop p (drop q xs) ≡ drop n xs
  drop-drop p zero n xs e = let e' : p ≡ n = omega arith in rw (e') refl
  drop-drop p (suc q) zero xs e = absurd (omega arith)
  drop-drop p (suc q) (suc n) [] e = drop-nil p
  drop-drop p (suc q) (suc n) (x ∷ xs) e = drop-drop p q n xs (omega arith)

  pub take-add : (p q n : ℕ) (xs : List A) → p + q ≡ n → take n xs ≡ take p xs ++ take q (drop p xs)
  take-add zero q n xs e = let e' : q ≡ n = omega arith in rw (e') refl
  take-add (suc p) q zero xs e = absurd (omega arith)
  take-add (suc p) zero (suc n) [] e = refl
  take-add (suc p) (suc q) (suc n) [] e = refl
  take-add (suc p) q (suc n) (x ∷ xs) e = ap (λ r. x ∷ r) (take-add p q n xs (omega arith))

  pub drop-take : (w k n : ℕ) (xs : List A) → w + k ≡ n → drop w (take n xs) ≡ take k (drop w xs)
  drop-take zero k n xs e = let e' : k ≡ n = omega arith in rw (e') refl
  drop-take (suc w) k zero xs e = absurd (omega arith)
  drop-take (suc w) zero (suc n) [] e = refl
  drop-take (suc w) (suc k) (suc n) [] e = refl
  drop-take (suc w) k (suc n) (x ∷ xs) e = drop-take w k n xs (omega arith)

  pub take-all : (n : ℕ) (xs : List A) → length xs ≤ n → take n xs ≡ xs
  take-all zero [] h = refl
  take-all zero (x ∷ xs) h = absurd (omega arith)
  take-all (suc n) [] h = refl
  take-all (suc n) (x ∷ xs) h = ap (λ r. x ∷ r) (take-all n xs (omega arith))

  pub take_short : (n : ℕ) (xs : List A) → length (take n xs) < n → take n xs ≡ xs
  take_short zero xs h = absurd (omega arith)
  take_short (suc n) [] h = refl
  take_short (suc n) (x ∷ xs) h = ap (λ r. x ∷ r) (take_short n xs (omega arith))

  pub take_full : (n : ℕ) (xs : List A) → n ≤ length (take n xs) → n ≤ length xs
  take_full zero xs h = omega arith
  take_full (suc n) [] h = absurd (omega arith)
  take_full (suc n) (x ∷ xs) h = omega (arith, take_full n xs (omega arith))

  pub take-append_drop : (p : ℕ) (xs : List A) → take p xs ++ drop p xs ≡ xs
  take-append_drop zero xs = refl
  take-append_drop (suc p) [] = refl
  take-append_drop (suc p) (x ∷ xs) = ap (λ r. x ∷ r) (take-append_drop p xs)

  pub length-drop : (n : ℕ) (xs : List A) → length (drop n xs) ≡ length xs - n
  length-drop zero xs = omega arith
  length-drop (suc n) [] = omega arith
  length-drop (suc n) (x ∷ xs) = omega (arith, length-drop n xs)

  pub get_or-drop :
      (p j n : ℕ) (xs : List A) (d : A) → p + j ≡ n → get_or (drop p xs) j d ≡ get_or xs n d
  get_or-drop zero j n xs d e = let e' : j ≡ n = omega arith in rw (e') refl
  get_or-drop (suc p) j zero xs d e = absurd (omega arith)
  get_or-drop (suc p) j (suc n) [] d e = refl
  get_or-drop (suc p) j (suc n) (x ∷ xs) d e = get_or-drop p j n xs d (omega arith)

  pub map-append :
      {B : Type 0} (g : A → B) (xs ys : List A) → map g (xs ++ ys) ≡ map g xs ++ map g ys
  map-append g [] ys = refl
  map-append g (x ∷ xs) ys = ap (λ r. g x ∷ r) (map-append g xs ys)

  pub map-drop :
      {B : Type 0} (p : ℕ) (g : A → B) (xs : List A) → map g (drop p xs) ≡ drop p (map g xs)
  map-drop zero g xs = refl
  map-drop (suc p) g [] = refl
  map-drop (suc p) g (x ∷ xs) = map-drop p g xs

module _ {F : Type 0} where
  -- The candles have strictly increasing times above `lo`.
  unfoldable pub increasing : Time → List (Candle F) → Bool
  increasing lo [] = true
  increasing lo (c ∷ cs) = ltb lo c.time && increasing c.time cs

  pub after_all :
      (lo t : Time) (cs : List (Candle F)) → increasing lo cs ≡ true → t ≤ lo → after t cs ≡ cs
  unfolding increasing after
  after_all lo t [] h le = refl
  after_all lo t (c ∷ cs) h le = ground (arith, h, after_all c.time t cs)

  -- After the time of the candle at `p` come the candles from `p + 1` on.
  pub after_at :
      (lo : Time) (p : ℕ) (cs : List (Candle F))
      → increasing lo cs ≡ true
      → p < length cs
      → (lo < get_or (map (λ c. c.time) cs) p 0)
        × (after (get_or (map (λ c. c.time) cs) p 0) cs ≡ drop (suc p) cs)
  unfolding increasing after
  after_at lo p [] h lt = absurd (omega arith)
  after_at lo zero (c ∷ cs) h lt = ground (arith, h, after_all c.time c.time cs)
  after_at lo (suc p) (c ∷ cs) h lt = ground (arith, h, after_at c.time p cs)
