-- ===== src/FileSystem/Paths.antt =====
-- FileSystem::TraversePath::ParsePath gives the steps of a path back.
use nthu_operating_system_er.Base.{
  ℕ, zero, suc, ◌<◌, ◌≡◌, refl, ◌∙◌, ap, false, List, [], ◌∷◌, ◌++◌, none, some, arith, length,
  length-append, count,
}
use nthu_operating_system_er.FileSystem.{delimiter, split_once, parse_steps, is_root, parse_path}

-- A path of these steps, from the root.
unfoldable pub path_of : List (List ℕ) → List ℕ
path_of [] = []
path_of (step ∷ steps) = delimiter ∷ (step ++ path_of steps)

-- No step has a delimiter in it.
unfoldable pub Clean : List (List ℕ) → Type 0
Clean [] = Unit {0}
Clean (step ∷ steps) = (count delimiter step ≡ 0) × Clean steps

split_once-end : (step : List ℕ) → count delimiter step ≡ 0 → split_once (step ++ []) ≡ (step, none)
unfolding split_once count
split_once-end [] h = refl
split_once-end (c ∷ cs) h = ground (arith, split_once-end cs)

split_once-step :
    (step later : List ℕ)
    → count delimiter step ≡ 0
    → split_once (step ++ (delimiter ∷ later)) ≡ (step, some later)
unfolding split_once count
split_once-step [] later h = refl
split_once-step (c ∷ cs) later h = ground (arith, split_once-step cs later)

parse_round_end :
    (rounds : ℕ) (cs step : List ℕ)
    → split_once cs ≡ (step, none)
    → parse_steps (suc rounds) cs ≡ step ∷ []
unfolding parse_steps
parse_round_end rounds cs step e = rw (ap (λ r. r.1) e, parse_steps) (ap (λ r. r.0 ∷ []) e)

parse_round_step :
    (rounds : ℕ) (cs step later : List ℕ)
    → split_once cs ≡ (step, some later)
    → parse_steps (suc rounds) cs ≡ step ∷ parse_steps rounds later
unfolding parse_steps
parse_round_step rounds cs step later e =
    rw (ap (λ r. r.1) e, parse_steps) (ap (λ r. r.0 ∷ parse_steps rounds later) e)

parse_steps-path_of :
    (rounds : ℕ) (step : List ℕ) (steps : List (List ℕ))
    → Clean (step ∷ steps)
    → length (path_of steps) < rounds
    → parse_steps rounds (step ++ path_of steps) ≡ step ∷ steps
unfolding path_of Clean
parse_steps-path_of zero step steps v h = absurd (omega arith)
parse_steps-path_of (suc rounds) step [] v h =
    parse_round_end rounds (step ++ []) step (split_once-end step v.0)
parse_steps-path_of (suc rounds) step (next ∷ steps) v h =
    parse_round_step rounds (step ++ (delimiter ∷ (next ++ path_of steps))) step
      (next ++ path_of steps) (split_once-step step (next ++ path_of steps) v.0)
    ∙ ap (λ rest. step ∷ rest)
        (parse_steps-path_of rounds next steps v.1
          (omega (arith, length-append next (path_of steps))))

not_root :
    (step : List ℕ) (steps : List (List ℕ))
    → 0 < length (step ++ path_of steps)
    → is_root delimiter (step ++ path_of steps) ≡ false
not_root step steps h = nonempty (step ++ path_of steps) h
  where
    nonempty : (cs : List ℕ) → 0 < length cs → is_root delimiter cs ≡ false
    nonempty [] h = absurd (omega arith)
    nonempty (c ∷ cs) h = refl

-- `ParsePath` of a path of steps without delimiters does not throw, ends, and gives the root and the
-- steps, for one step at least that are not one empty step.
pub parse_path-path_of :
    (step : List ℕ) (steps : List (List ℕ))
    → Clean (step ∷ steps)
    → 0 < length (step ++ path_of steps)
    → parse_path (path_of (step ∷ steps)) ≡ some ((delimiter ∷ []) ∷ step ∷ steps)
unfolding parse_path path_of
parse_path-path_of step steps v h = rw (
  not_root step steps h,
  parse_steps-path_of (suc (length (step ++ path_of steps))) step steps v
      (omega (arith, length-append step (path_of steps))),
)
