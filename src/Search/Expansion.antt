-- ===== src/Search/Expansion.antt =====
-- What `expand` of modelsearch/spaces.py returns.
use mathlib.Core.List.{
  Mem, Nodup, Nodup-nil, Nodup-cons, Perm, mem-cons, mem-cons_of_mem, not-mem-nil, map-append,
  mem-append_left,
}
use mathlib.Core.List.Perm
use mathlib.Core.List.Nodup
use mathlib.Core.List.{Mem-prop}
use mathlib.Core.Logic.Or
use automated_stock_trading.Common.{
  ℕ, zero, suc, ◌≡◌, ◌≤◌, ◌<◌, inl, inr, refl, sym, ap, subst, Bool, true, false, List, [], ◌∷◌,
  ◌++◌, map, ◌==◌, ==_iff, leb, leb→le, Bool-cases, exists, length, arith,
}
use automated_stock_trading.Search.Space.{
  Candidate, Space, Mode, grid, random, raw_from, unique_from, take, expand,
}

-- `random.Random(seed).sample(xs, n)`: `n` of the elements of `xs`, without replacement.
pub record Samples {A : Type 0} (sample : List A → ℕ → List A) : Type 0 where
  pub left : List A → ℕ → List A
  pub chosen : (xs : List A) (n : ℕ) → n ≤ length xs → Perm (sample xs n ++ left xs n) xs
  pub size : (xs : List A) (n : ℕ) → n ≤ length xs → length (sample xs n) ≡ n

module _ {V : Type 0} where
  unfoldable pub drop : ℕ → List (Candidate V) → List (Candidate V)
  drop zero cs = cs
  drop (suc n) [] = []
  drop (suc n) (c ∷ cs) = drop n cs

  pub take-drop : (n : ℕ) (cs : List (Candidate V)) → take n cs ++ drop n cs ≡ cs
  unfolding take drop
  take-drop zero cs = refl
  take-drop (suc n) [] = refl
  take-drop (suc n) (c ∷ cs) = ap (◌∷◌ c) (take-drop n cs)

  pub length-take : (n : ℕ) (cs : List (Candidate V)) → n ≤ length cs → length (take n cs) ≡ n
  unfolding take
  length-take zero cs h = refl
  length-take (suc n) [] h = absurd (omega arith)
  length-take (suc n) (c ∷ cs) h = ap suc (length-take n cs (omega arith))

module _ {V : Type 0} (digest : Candidate V → ℕ) where
  abbrev is_known : List ℕ → ℕ → Bool
  is_known seen d = exists (λ e. e == d) seen

  unique_known :
      (seen : List ℕ) (c : Candidate V) (cs : List (Candidate V))
      → is_known seen (digest c) ≡ true
      → unique_from digest seen (c ∷ cs) ≡ unique_from digest seen cs
  unfolding unique_from
  unique_known seen c cs e = rw e refl

  unique_new :
      (seen : List ℕ) (c : Candidate V) (cs : List (Candidate V))
      → is_known seen (digest c) ≡ false
      → unique_from digest seen (c ∷ cs) ≡ c ∷ unique_from digest (digest c ∷ seen) cs
  unfolding unique_from
  unique_new seen c cs e = rw e refl

  unique_nil : (seen : List ℕ) → unique_from digest seen [] ≡ []
  unfolding unique_from
  unique_nil seen = refl

  is_known-cons : (seen : List ℕ) (d e : ℕ) → is_known seen d ≡ true → is_known (e ∷ seen) d ≡ true
  is_known-cons seen d e h = ground arith

  known_skips :
      (d : ℕ) (seen : List ℕ) (cs : List (Candidate V))
      → is_known seen d ≡ true
      → Mem d (map digest (unique_from digest seen cs))
      → ⊥
  known_skips d seen [] h m = not-mem-nil (rw (unique_nil seen) at m)
  known_skips d seen (c ∷ cs) h m = elim (Bool-cases (is_known seen (digest c))) [
    | inl e ↦ known_skips d seen cs h (rw (unique_known seen c cs e) at m)
    | inr e ↦
        Or.elim (λ a. absurd a) (mem-cons.0 (rw (unique_new seen c cs e) at m))
          (λ p. cc (h, subst (λ x. is_known seen x ≡ false) (sym p) e))
          (known_skips d (digest c ∷ seen) cs (is_known-cons seen d (digest c) h))
  ]

  unique-Nodup :
      (seen : List ℕ) (cs : List (Candidate V)) → Nodup (map digest (unique_from digest seen cs))
  unique-Nodup seen [] = rw (unique_nil seen) Nodup-nil
  unique-Nodup seen (c ∷ cs) = elim (Bool-cases (is_known seen (digest c))) [
    | inl e ↦ rw (unique_known seen c cs e) (unique-Nodup seen cs)
    | inr e ↦ rw (unique_new seen c cs e) (
        Nodup-cons.1 (
          known_skips (digest c) (digest c ∷ seen) cs (known_self (digest c) seen),
          unique-Nodup (digest c ∷ seen) cs,
        ))
  ]
    where
      known_self : (d : ℕ) (ds : List ℕ) → is_known (d ∷ ds) d ≡ true
      known_self d ds = ground arith

  unique-mem :
      (seen : List ℕ) (c : Candidate V) (cs : List (Candidate V))
      → is_known seen (digest c) ≡ false
      → Mem c cs
      → Mem (digest c) (map digest (unique_from digest seen cs))
  unique-mem seen c [] h m = absurd (not-mem-nil m)
  unique-mem seen c (x ∷ xs) h m = elim (Bool-cases (is_known seen (digest x))) [
    | inl e ↦ rw (unique_known seen x xs e) (
        Or.elim Mem-prop (mem-cons.0 m)
          (λ p. absurd (cc (h, subst (λ z. is_known seen (digest z) ≡ true) (sym p) e)))
          (unique-mem seen c xs h))
    | inr e ↦ rw (unique_new seen x xs e) (
        Or.elim Mem-prop (mem-cons.0 m) (λ p. mem-cons.1 (Or.inl (ap digest p)))
          (λ k. elim (Bool-cases (digest x == digest c)) [
            | inl q ↦ mem-cons.1 (Or.inl (sym ((==_iff (digest x) (digest c)).0 q)))
            | inr q ↦ mem-cons_of_mem _ (unique-mem (digest x ∷ seen) c xs (still q) k)
          ]))
  ]
    where
      still : (digest x == digest c) ≡ false → is_known (digest x ∷ seen) (digest c) ≡ false
      still q = rw q h

  unique-source :
      (seen : List ℕ) {c : Candidate V} (cs : List (Candidate V))
      → Mem c (unique_from digest seen cs)
      → Mem c cs
  unique-source seen [] m = rw (unique_nil seen) at m
  unique-source seen (x ∷ xs) m = elim (Bool-cases (is_known seen (digest x))) [
    | inl e ↦ mem-cons_of_mem _ (unique-source seen xs (rw (unique_known seen x xs e) at m))
    | inr e ↦
        Or.elim Mem-prop (mem-cons.0 (rw (unique_new seen x xs e) at m))
          (λ p. mem-cons.1 (Or.inl p))
          (λ k. mem-cons_of_mem _ (unique-source (digest x ∷ seen) xs k))
  ]

  -- What is promised of a list of candidates `cs` that `expand` may return for the space `raw`.
  abbrev pub Expands : (raw : List (Candidate V)) (max_candidates : ℕ) → List (Candidate V) → Type 0
  Expands raw max_candidates cs =
      (length cs ≤ max_candidates)
      × Nodup (map digest cs)
      × ((c : Candidate V) → Mem c cs → Mem c raw)
      × ((c : Candidate V)
          → length cs < max_candidates
          → Mem c raw
          → Mem (digest c) (map digest cs))

  -- A choice without replacement of as many as are allowed.
  Expands-choice :
      (raw : List (Candidate V)) (n : ℕ) (cs rest : List (Candidate V))
      → Perm (cs ++ rest) (unique_from digest [] raw)
      → length cs ≡ n
      → Expands raw n cs
  Expands-choice raw n cs rest p l = (
    omega arith,
    Nodup.of_append_left (map digest rest) (
        rw (map-append digest cs rest) at
          (Perm.nodup (Perm.symm (Perm.map digest p)) (unique-Nodup [] raw))),
    (λ c m. unique-source [] raw ((Perm.mem_iff p).0 (mem-append_left rest m))),
    (λ c h m. absurd (omega arith)),
  )

  -- Where a random sample is a choice without replacement of as many elements as it is asked for, the
  -- expansion of a space has at most the allowed number of candidates, no two of them with one digest,
  -- each of them from the space, and where they are fewer than allowed, every candidate of the space
  -- has its digest among theirs.
  pub expand_lem :
      (sample : List (Candidate V) → ℕ → List (Candidate V))
      → Samples sample
      → (space : Space V) (mode : Mode) (max_candidates : ℕ)
      → Expands
          (raw_from space.param_grids space.estimators)
          max_candidates
          (expand digest sample space mode max_candidates)
  unfolding expand
  expand_lem sample law space mode max_candidates =
      elim (Bool-cases (leb (length unique) max_candidates)) [
        | inl e ↦ rw e (
          omega (arith, leb→le (length unique) max_candidates e),
          unique-Nodup [] raw,
          (λ c m. unique-source [] raw m),
          (λ c h m. unique-mem [] c raw refl m),
        )
        | inr e ↦ rw e (limited mode (omega (arith, larger e)))
      ]
    where
      raw : List (Candidate V)
      raw = raw_from space.param_grids space.estimators

      unique : List (Candidate V)
      unique = unique_from digest [] raw

      larger : leb (length unique) max_candidates ≡ false → max_candidates < length unique
      larger e = ground arith

      limited :
          (m : Mode)
          → max_candidates ≤ length unique
          → Expands raw max_candidates
              (elim m [ random ↦ sample unique max_candidates | grid ↦ take max_candidates unique ])
      limited grid h =
          Expands-choice raw max_candidates (take max_candidates unique)
            (drop max_candidates unique)
            (subst (λ l. Perm l unique) (sym (take-drop max_candidates unique)) Perm.rfl)
            (length-take max_candidates unique h)
      limited random h =
          Expands-choice raw max_candidates (sample unique max_candidates)
            (law.left unique max_candidates) (law.chosen unique max_candidates h)
            (law.size unique max_candidates h)
