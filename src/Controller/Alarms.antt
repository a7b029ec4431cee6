-- ===== src/Controller/Alarms.antt =====
-- What a sequence of alarms keeps, and what the handler records.
use nthu_operating_system_er.Base.{
  ℕ, suc, ◌+◌, ◌<◌, ◌≡◌, refl, ap, ◌&&◌, List, [], ◌∷◌, ◌++◌, some, arith, ltb, length, Bool-cases,
  inl, inr,
}
use nthu_operating_system_er.Controller.{Controller, cancelled, pop_back, handler}

length-pop_back : (cs : List ℕ) → 0 < length cs → length cs ≡ suc (length (pop_back cs))
unfolding pop_back
length-pop_back [] h = absurd (omega arith)
length-pop_back (c ∷ []) h = refl
length-pop_back (c ∷ d ∷ cs) h = ap suc (length-pop_back (d ∷ cs) (omega arith))

-- When the handler cancels a consumer, the number of consumers falls by one, but the size that it
-- records is two more than the number that is left.
pub handler-misrecords :
    (c : Controller) (wk_sz new_consumer victim : ℕ) (sizes : List ℕ)
    → c.records ≡ some sizes
    → (handler c wk_sz new_consumer).0 ≡ cancelled victim
    → (length c.consumers ≡ length (handler c wk_sz new_consumer).1.consumers + 1)
      × ((handler c wk_sz new_consumer).1.records
          ≡ some (sizes ++ (length (handler c wk_sz new_consumer).1.consumers + 2) ∷ []))
unfolding handler
handler-misrecords c wk_sz new_consumer victim sizes recorded e =
    elim (Bool-cases (ltb c.high_threshold wk_sz)) [
      | inl grow ↦ absurd (ground arith)
      | inr calm ↦ elim (Bool-cases (ltb wk_sz c.low_threshold && ltb 1 (length c.consumers))) [
        | inl shrink ↦
            let fewer = length-pop_back c.consumers (ground arith) in
            rw (calm, shrink)
              (
                omega (arith, fewer),
                rw recorded (ap (λ (n : ℕ). some (sizes ++ n ∷ [])) (omega (arith, fewer))),
              )
        | inr steady ↦ absurd (ground arith)
      ]
    ]
