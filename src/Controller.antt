-- ===== src/Controller.antt =====
-- Pthread NTHU-OS-Pthreads/consumer_controller.hpp: the handler of the periodic alarm, which starts and
-- cancels consumers by the length of the worker queue. A consumer is a number; the one that
-- `new Consumer` makes is an argument. The signal is SIGALRM, and `global_ctr` is the controller. `records` is what rec_ptr points to, if it is not null.
pub mod Alarms
pub mod Examples
use nthu_operating_system_er.Base.{
  ℕ, suc, ◌+◌, Bool, true, false, ◌&&◌, List, [], ◌∷◌, ◌++◌, Option, none, some, ltb, if◌then◌else◌,
  length,
}

pub record Controller : Type 0 where
  pub consumers : List ℕ
  pub low_threshold : ℕ
  pub high_threshold : ℕ
  pub records : Option (List ℕ)

-- What the handler does to a consumer.
pub data Scaling : Type 0 where
  kept : Scaling
  started : ℕ → Scaling
  cancelled : ℕ → Scaling

-- rec_ptr->push_back(size)
abbrev pub push_record : Option (List ℕ) → ℕ → Option (List ℕ)
push_record none size = none
push_record (some sizes) size = some (sizes ++ size ∷ [])

-- consumers.back(), of a vector that is not empty
unfoldable pub back : List ℕ → ℕ
back [] = 0
back (c ∷ []) = c
back (c ∷ d ∷ cs) = back (d ∷ cs)

unfoldable pub pop_back : List ℕ → List ℕ
pop_back [] = []
pop_back (c ∷ []) = []
pop_back (c ∷ d ∷ cs) = c ∷ pop_back (d ∷ cs)

-- ConsumerController::start: the list of records starts anew.
unfoldable pub start : Controller → Controller
start c = record c { records = start_records c.records }
  where
    start_records : Option (List ℕ) → Option (List ℕ)
    start_records none = none
    start_records (some sizes) = some (0 ∷ [])

unfoldable pub handler : Controller → ℕ → ℕ → Scaling × Controller
unfolding back pop_back
handler c wk_sz new_consumer =
    if ltb c.high_threshold wk_sz
    then (
      started new_consumer,
      record c {
        consumers = c.consumers ++ new_consumer ∷ [];
        records = push_record c.records (length c.consumers + 1);
      },
    )
    else if ltb wk_sz c.low_threshold && ltb 1 (length c.consumers)
    then (
      cancelled (back c.consumers),
      record c {
        consumers = pop_back c.consumers;
        records = push_record c.records (length c.consumers + 1);
      },
    )
    else (kept, c)

-- A sequence of alarms, each with the length that the handler reads and the consumer it may make.
unfoldable pub alarms : Controller → List (ℕ × ℕ) → Controller
unfolding handler
alarms c [] = c
alarms c (a ∷ rounds) = alarms (handler c a.0 a.1).1 rounds
