-- ===== src/TsQueue/Fifo.antt =====
-- The ring buffer is a first-in first-out queue of bounded length.
use nthu_operating_system_er.Base.{
  ℕ, zero, suc, ◌+◌, ◌-◌, ◌%◌, ◌≤◌, ◌<◌, ◌≡◌, refl, ◌∙◌, ap, List, [], ◌∷◌, ◌++◌, none, some, arith,
  ◌==◌, length, length-set, length-replicate, get_or, set, ◌⊎◌, inl, inr, Bool-cases,
}
use nthu_operating_system_er.TsQueue.{TsQueue, new, enqueue, dequeue, get_size}
use nthu_operating_system_er.TsQueue.Ring.{
  next_slot, next_slot_lem, next_slot-lt, walk, walk-suc, items_from, items_from-set,
}

-- The items in the order in which they leave.
abbrev pub contents : TsQueue → List ℕ
contents q = items_from q.buffer_size q.buffer q.size (next_slot q.buffer_size q.head)

pub record IsQueue (q : TsQueue) : Type 0 where
  pub slots : length q.buffer ≡ q.buffer_size
  pub room : q.size ≤ q.buffer_size
  pub head_inside : q.head < q.buffer_size
  -- The tail is the slot behind the last item.
  pub tail_behind : q.tail ≡ walk q.buffer_size q.size (next_slot q.buffer_size q.head)

-- The length of the contents is what get_size returns.
length-items_from :
    (n : ℕ) (buffer : List ℕ) (count i : ℕ) → length (items_from n buffer count i) ≡ count
unfolding items_from
length-items_from n buffer zero i = refl
length-items_from n buffer (suc count) i = ap suc (length-items_from n buffer count (next_slot n i))

pub contents-get_size : (q : TsQueue) → length (contents q) ≡ get_size q
unfolding get_size
contents-get_size q =
    length-items_from q.buffer_size q.buffer q.size (next_slot q.buffer_size q.head)

-- A new queue with room for at least one item is well formed and empty.
pub new-IsQueue :
    (content buffer_size : ℕ)
    → 0 < buffer_size
    → IsQueue (new content buffer_size) × (contents (new content buffer_size) ≡ [])
unfolding new walk items_from
new-IsQueue content n h = (
  record {
    slots = length-replicate n content;
    room = omega arith;
    head_inside = omega arith;
    tail_behind = ground (arith, next_slot_lem n (n - 1));
  },
  refl,
)

-- On a well-formed queue `enqueue` waits exactly if the buffer is full; otherwise the item becomes
-- the last one, the others stay in order, and the queue stays well formed.
pub enqueue_lem :
    (q : TsQueue) (item : ℕ)
    → IsQueue q
    → ((enqueue q item ≡ none) × (length (contents q) ≡ q.buffer_size))
      ⊎ ((q' : TsQueue) × (enqueue q item ≡ some q')
          × (contents q' ≡ contents q ++ item ∷ [])
          × (q'.buffer_size ≡ q.buffer_size)
          × IsQueue q')
unfolding enqueue
enqueue_lem q item v = elim (Bool-cases (q.size == q.buffer_size)) [
  | inl full ↦ inl (
    rw (enqueue, full),
    length-items_from q.buffer_size q.buffer q.size (next_slot q.buffer_size q.head) ∙ ground arith,
  )
  | inr space ↦
      let n = q.buffer_size in
      let first = next_slot n q.head in
      let q' : TsQueue = record q {
        buffer = set q.buffer q.tail item;
        tail = (q.tail + 1) % n;
        size = q.size + 1;
      } in
      inr (
        q',
        rw (enqueue, space),
        ap (λ (c : ℕ). items_from n (set q.buffer q.tail item) c first) (omega arith)
            ∙ items_from-set n q.buffer q.size first q.tail item v.slots
                (next_slot-lt n q.head v.head_inside) (ground (arith, v.room)) v.tail_behind,
        refl,
        record {
          slots = length-set q.buffer q.tail item ∙ v.slots;
          room = ground (arith, v.room);
          head_inside = v.head_inside;
          tail_behind =
              ap (λ (t : ℕ). (t + 1) % n) v.tail_behind
              ∙ next_is_mod n (walk n q.size first)
              ∙ walk-suc n q.size first
              ∙ ap (λ (c : ℕ). walk n c first) (omega arith);
        },
      )
]
  where
    next_is_mod : (n i : ℕ) → (i + 1) % n ≡ next_slot n i
    next_is_mod n i = unfold next_slot in refl

dequeue-some :
    (q : TsQueue) (count : ℕ)
    → q.size ≡ suc count
    → dequeue q
      ≡ some (
        get_or q.buffer (next_slot q.buffer_size q.head) 0,
        record q { head = next_slot q.buffer_size q.head; size = count },
      )
unfolding dequeue next_slot
dequeue-some q count e = ground arith

items_from-suc :
    (n : ℕ) (buffer : List ℕ) (size count i : ℕ)
    → size ≡ suc count
    → items_from n buffer size i ≡ get_or buffer i 0 ∷ items_from n buffer count (next_slot n i)
unfolding items_from
items_from-suc n buffer size count i e = rw e

walk-next_slot :
    (n size count i : ℕ) → size ≡ suc count → walk n size i ≡ walk n count (next_slot n i)
unfolding walk
walk-next_slot n size count i e = rw e

-- On a well-formed queue `dequeue` waits exactly if the queue is empty; otherwise it returns the item
-- that came first, leaves the others in order, and the queue stays well formed.
pub dequeue_lem :
    (q : TsQueue)
    → IsQueue q
    → ((dequeue q ≡ none) × (contents q ≡ []))
      ⊎ ((item : ℕ) × (q' : TsQueue) × (dequeue q ≡ some (item, q'))
          × (contents q ≡ item ∷ contents q')
          × (q'.buffer_size ≡ q.buffer_size)
          × IsQueue q')
dequeue_lem q v = by_size q.size refl
  where
    first : ℕ
    first = next_slot q.buffer_size q.head

    by_size :
        (size : ℕ)
        → q.size ≡ size
        → ((dequeue q ≡ none) × (contents q ≡ []))
          ⊎ ((item : ℕ) × (q' : TsQueue) × (dequeue q ≡ some (item, q'))
              × (contents q ≡ item ∷ contents q')
              × (q'.buffer_size ≡ q.buffer_size)
              × IsQueue q')
    by_size zero e = inl (unfold dequeue in rw e, unfold items_from in rw e)
    by_size (suc count) e = inr (
      get_or q.buffer first 0,
      record q { head = first; size = count },
      dequeue-some q count e,
      items_from-suc q.buffer_size q.buffer q.size count first e,
      refl,
      record {
        slots = v.slots;
        room = omega (arith, v.room);
        head_inside = next_slot-lt q.buffer_size q.head v.head_inside;
        tail_behind = v.tail_behind ∙ walk-next_slot q.buffer_size q.size count first e;
      },
    )
