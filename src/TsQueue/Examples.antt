-- ===== src/TsQueue/Examples.antt =====
-- A ring of three slots that wraps around.
use nthu_operating_system_er.Base.{ℕ, ◌≡◌, refl, [], ◌∷◌, ◌++◌, none, some, arith, length, ◌⊎◌}
use nthu_operating_system_er.TsQueue.{TsQueue, enqueue, dequeue}
use nthu_operating_system_er.TsQueue.Ring.{next_slot, walk, items_from}
use nthu_operating_system_er.TsQueue.Fifo.{contents, IsQueue, enqueue_lem, dequeue_lem}

-- Two items in the slots 2 and 0; slot 1 is free.
abbrev wrapped : TsQueue
wrapped = record { buffer_size = 3; buffer = 20 ∷ 77 ∷ 10 ∷ []; size = 2; head = 1; tail = 1 }

wrapped-IsQueue : IsQueue wrapped
unfolding walk next_slot
wrapped-IsQueue = record {
  slots = refl;
  room = omega arith;
  head_inside = omega arith;
  tail_behind = refl;
}

wrapped-contents : contents wrapped ≡ 10 ∷ 20 ∷ []
unfolding items_from next_slot
wrapped-contents = refl

enqueue_lem_example :
    ((enqueue wrapped 30 ≡ none) × (length (contents wrapped) ≡ wrapped.buffer_size))
    ⊎ ((q' : TsQueue) × (enqueue wrapped 30 ≡ some q')
        × (contents q' ≡ contents wrapped ++ 30 ∷ [])
        × (q'.buffer_size ≡ wrapped.buffer_size)
        × IsQueue q')
enqueue_lem_example = enqueue_lem wrapped 30 wrapped-IsQueue

dequeue_lem_example :
    ((dequeue wrapped ≡ none) × (contents wrapped ≡ []))
    ⊎ ((item : ℕ) × (q' : TsQueue) × (dequeue wrapped ≡ some (item, q'))
        × (contents wrapped ≡ item ∷ contents q')
        × (q'.buffer_size ≡ wrapped.buffer_size)
        × IsQueue q')
dequeue_lem_example = dequeue_lem wrapped wrapped-IsQueue
