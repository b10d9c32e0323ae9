-- ===== src/Search/Space.antt =====
-- `_grid_candidates` and `expand` of modelsearch/spaces.py, with texts as numbers. The digest of a
-- candidate (SHA-1 of its JSON) and the random sample are arguments, since both are Python's.
use automated_stock_trading.Common.{
  ℕ, zero, suc, Bool, List, [], ◌∷◌, ◌++◌, map, ◌==◌, leb, ltb, if◌then◌else◌, exists, length,
  sort_by,
}

-- A grid gives a parameter a list of values, or a single one.
pub data Choice (V : Type 0) : Type 0 where
  listed : List V → Choice V
  single : V → Choice V

pub data Mode : Type 0 where
  grid : Mode
  random : Mode

abbrev pub Candidate : Type 0 → Type 0
Candidate V = ℕ × List (ℕ × V)

abbrev pub Grid : Type 0 → Type 0
Grid V = List (ℕ × Choice V)

-- A search space that has passed `validate`: the estimators, and a grid for some of them.
pub record Space (V : Type 0) : Type 0 where
  pub estimators : List ℕ
  pub param_grids : List (ℕ × Grid V)

module _ {V : Type 0} where
  abbrev values : Choice V → List V
  values (listed vs) = vs
  values (single v) = v ∷ []

  -- `grids.get(key) or {}`.
  grid_of : (key : ℕ) → List (ℕ × Grid V) → Grid V
  grid_of key [] = []
  grid_of key ((k, g) ∷ gs) = if k == key then g else grid_of key gs

  -- `sorted(grid)` with the values of each name.
  abbrev by_name : ℕ × Choice V → ℕ × Choice V → Bool
  by_name (n, _) (m, _) = ltb m n

  -- `zip(names, combo)` for each combination of `itertools.product`, the last name varying fastest.
  each : (name : ℕ) → List V → List (List (ℕ × V)) → List (List (ℕ × V))
  each name [] rest = []
  each name (v ∷ vs) rest = map (λ ps. (name, v) ∷ ps) rest ++ each name vs rest

  combinations : Grid V → List (List (ℕ × V))
  unfolding each
  combinations [] = [] ∷ []
  combinations ((name, c) ∷ rest) = each name (values c) (combinations rest)

  unfoldable pub grid_candidates : (key : ℕ) → Grid V → List (Candidate V)
  unfolding combinations sort_by
  grid_candidates key [] = (key, []) ∷ []
  grid_candidates key (g ∷ gs) = map (λ ps. (key, ps)) (combinations (sort_by by_name (g ∷ gs)))

  -- The first loop of `expand`.
  unfoldable pub raw_from : List (ℕ × Grid V) → List ℕ → List (Candidate V)
  unfolding grid_candidates grid_of
  raw_from grids [] = []
  raw_from grids (key ∷ keys) = grid_candidates key (grid_of key grids) ++ raw_from grids keys

  -- Its second loop, with the set `seen` as a list.
  unfoldable pub unique_from :
      (digest : Candidate V → ℕ) → (seen : List ℕ) → List (Candidate V) → List (Candidate V)
  unique_from digest seen [] = []
  unique_from digest seen (c ∷ cs) =
      let known = exists (λ d. d == digest c) seen in
      let rest = unique_from digest (if known then seen else digest c ∷ seen) cs in
      if known then rest else c ∷ rest

  -- `unique[:n]`.
  unfoldable pub take : ℕ → List (Candidate V) → List (Candidate V)
  take zero cs = []
  take (suc n) [] = []
  take (suc n) (c ∷ cs) = c ∷ take n cs

  -- `expand`; `sample` is that of `random.Random(seed)`.
  unfoldable pub expand :
      (digest : Candidate V → ℕ) (sample : List (Candidate V) → ℕ → List (Candidate V))
      → Space V
      → Mode
      → (max_candidates : ℕ) → List (Candidate V)
  unfolding raw_from unique_from take
  expand digest sample space mode max_candidates =
      let unique = unique_from digest [] (raw_from space.param_grids space.estimators) in
      if leb (length unique) max_candidates
      then unique
      else (elim mode [ random ↦ sample unique max_candidates | grid ↦ take max_candidates unique ])
