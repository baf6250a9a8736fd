-- ===== src/Backfill/Ordered.antt =====
-- Ordered timestamps and the rows that are left of a table, for internal/db/feature_store.go.
use ai_trading_v.Prelude.{
  ℕ, zero, suc, ◌≤◌, ◌≡◌, refl, ◌∙◌, arith, true, List, [], ◌∷◌, length, get_elem?, get_or, Option,
  none, some,
}
use ai_trading_v.Backfill.Flow.{advance}
use ai_trading_v.Backfill.Join.{
  last_within, ordered, or_else, ordered_weaken, advance-ordered, advance-last_within,
  last_within-advance,
}

pub ordered_at :
    (low i s : ℕ) (ts : List ℕ) → ordered (λ t. t) low ts ≡ true → get_elem? ts i ≡ some s → low ≤ s
unfolding ordered
ordered_at low i s [] h e = ground (arith, e)
ordered_at low zero s (t ∷ ts) h e = ground (arith, h, e)
ordered_at low (suc i) s (t ∷ ts) h e = ground (arith, h, ordered_at t i s ts, e)

pub or_else-none : {R : Type 0} (o : Option R) → or_else o none ≡ o
unfolding or_else
or_else-none none = refl
or_else-none (some r) = refl

-- The first timestamp after `low`, when the rows up to `low` are gone.
pub advance-window :
    {R : Type 0} (time : R → ℕ) (low high : ℕ) (rs : List R)
    → ordered time (suc low) rs ≡ true
    → (advance time high none rs).0 ≡ last_within time low high rs
advance-window time low high rs h =
    advance-last_within time low high none rs h ∙ or_else-none (last_within time low high rs)

-- A timestamp after `low`, when the rows up to `low` are gone.
pub after-window :
    {R : Type 0} (time : R → ℕ) (first low high : ℕ) (rs : List R)
    → ordered time 0 rs ≡ true
    → first ≡ low
    → (advance time high none (advance time first none rs).1).0 ≡ last_within time low high rs
after-window time first low high rs h e = rw (e) (
    advance-window time low high (advance time low none rs).1 (advance-ordered time 0 low none rs h)
    ∙ last_within-advance time low high low none rs (omega arith))

pub ordered_end :
    (i t x d : ℕ) (xs : List ℕ)
    → ordered (λ t. t) 0 (x ∷ xs) ≡ true
    → get_elem? (x ∷ xs) i ≡ some t
    → t ≤ get_or (x ∷ xs) (length xs) d
unfolding ordered
ordered_end zero t x d [] h e = ground (arith, e)
ordered_end (suc i) t x d [] h e = ground (arith, e)
ordered_end zero t x d (y ∷ ys) h e = ground (arith, h, e, ordered_end zero y y d ys)
ordered_end (suc i) t x d (y ∷ ys) h e = ground (arith, h, e, ordered_end i t y d ys)

pub some_inj : {A : Type 0} {x y : A} → some x ≡ some y → x ≡ y
some_inj h = ground (arith, h)

pub ordered_again :
    (t : ℕ) (ts : List ℕ) → ordered (λ t. t) 0 (t ∷ ts) ≡ true → ordered (λ t. t) t (t ∷ ts) ≡ true
unfolding ordered
ordered_again t ts h = ground (arith, h)

unfoldable pub rows_left : {R : Type 0} → (R → ℕ) → ℕ → List R → List R
rows_left time ts rs = (advance time ts none rs).1

pub left-ordered :
    {R : Type 0} (time : R → ℕ) (ts : ℕ) (rs : List R)
    → ordered time 0 rs ≡ true
    → ordered time 0 (rows_left time ts rs) ≡ true
unfolding rows_left
left-ordered time ts rs h =
    ordered_weaken time 0 (suc ts) _ (omega arith) (advance-ordered time 0 ts none rs h)

pub ordered_rest :
    (t : ℕ) (ts : List ℕ) → ordered (λ t. t) 0 (t ∷ ts) ≡ true → ordered (λ t. t) t ts ≡ true
unfolding ordered
ordered_rest t ts h = ground (arith, h)
