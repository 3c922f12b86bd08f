-- ===== src/Net/Runs.antt =====
-- The run of zero groups that `IP.String` leaves out.
use semantic_echo.Base.{
  ℕ, zero, suc, ◌+◌, ◌≤◌, ◌≡◌, refl, sym, ap, ◌∙◌, true, ◌&&◌, List, [], ◌∷◌, ◌++◌, ◌⊎◌, inl, inr,
  arith, length, take, drop, Bool-cases, append_assoc, if◌then◌else◌, ltb, leb, take_prefix,
  drop_prefix, length-append,
}
use semantic_echo.Net.{replicate}
use semantic_echo.Net.Print.{zeros, longest}

one_more : (n : ℕ) → suc n ≡ 1 + n
one_more n = omega arith

zeros-suc : (g : ℕ) (s : List ℕ) → zeros (suc g ∷ s) ≡ 0
unfolding zeros
zeros-suc g s = ground arith

-- The first groups of a list are zero.
zeros_lem : (s : List ℕ) → (after : List ℕ) × (s ≡ replicate (zeros s) ++ after)
unfolding zeros
zeros_lem [] = ([], refl)
zeros_lem (zero ∷ s) =
    let (after, e) = zeros_lem s in
    (after, ap (◌∷◌ 0) e ∙ ap (λ (n : ℕ). replicate n ++ after) (one_more (zeros s)))
zeros_lem (suc g ∷ s) = (suc g ∷ s, ap (λ (n : ℕ). replicate n ++ suc g ∷ s) (sym (zeros-suc g s)))

-- A run in a list of groups: what stands before it and after it, and its length.
pub record IsRun (gs : List ℕ) (at run : ℕ) : Type 0 where
  pub before : List ℕ
  pub after : List ℕ
  pub two : 2 ≤ run
  pub start : length before ≡ at
  pub split : gs ≡ before ++ (replicate run ++ after)

abbrev pub IsBest : List ℕ → ℕ × ℕ → Type 0
IsBest gs best = (best.1 ≡ 0) ⊎ IsRun gs best.0 best.1

long_enough : (z run : ℕ) → (leb 2 z && ltb run z) ≡ true → 2 ≤ z
long_enough z run e = ground arith

better :
    (gs before s : List ℕ) (i : ℕ) (best : ℕ × ℕ)
    → gs ≡ before ++ s
    → length before ≡ i
    → IsBest gs best
    → IsBest gs (if leb 2 (zeros s) && ltb best.1 (zeros s) then (i, zeros s) else best)
better gs before s i best e k h = elim (Bool-cases (leb 2 (zeros s) && ltb best.1 (zeros s))) [
  | inl longer ↦
      let (after, same) = zeros_lem s in
      let run : IsRun gs i (zeros s) = record {
        before = before;
        after = after;
        two = long_enough (zeros s) best.1 longer;
        start = k;
        split = e ∙ ap (λ (s : List ℕ). before ++ s) same;
      } in
      rw longer (inr run)
  | inr no_longer ↦ rw no_longer h
]

longest-IsBest :
    (gs before s : List ℕ) (i : ℕ) (best : ℕ × ℕ)
    → gs ≡ before ++ s
    → length before ≡ i
    → IsBest gs best
    → IsBest gs (longest s i best)
unfolding longest
longest-IsBest gs before [] i best e k h = h
longest-IsBest gs before (g ∷ s) i best e k h =
    longest-IsBest gs (before ++ g ∷ []) s (i + 1) _ (e ∙ sym (append_assoc before (g ∷ []) s))
      (omega (arith, length-append before (g ∷ []))) (better gs before (g ∷ s) i best e k h)

-- What `longest` finds is a run of at least two zero groups, or nothing.
pub longest_found : (gs : List ℕ) → IsBest gs (longest gs 0 (0, 0))
longest_found gs = longest-IsBest gs [] gs 0 (0, 0) refl refl (inl refl)

pub length-replicate : (n : ℕ) → length (replicate n) ≡ n
length-replicate zero = refl
length-replicate (suc n) = ap suc (length-replicate n)

-- A run cuts the list where `IP.String` cuts it.
module _ (gs : List ℕ) (at run : ℕ) (r : IsRun gs at run) where
  pub run-take : take at gs ≡ r.before
  run-take = ap (take at) r.split ∙ take_prefix at r.before (replicate run ++ r.after) r.start

  pub run-drop : drop (at + run) gs ≡ r.after
  run-drop =
      ap (drop (at + run)) (r.split ∙ sym (append_assoc r.before (replicate run) r.after))
      ∙ drop_prefix (at + run) (r.before ++ replicate run) r.after
          (omega (arith, length-append r.before (replicate run), length-replicate run, r.start))

  pub run-length : length r.before + run + length r.after ≡ length gs
  run-length = omega (
    arith,
    ap length r.split,
    length-append r.before (replicate run ++ r.after),
    length-append (replicate run) r.after,
    length-replicate run,
  )
