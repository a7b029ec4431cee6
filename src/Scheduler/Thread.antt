-- ===== src/Scheduler/Thread.antt =====
-- Thread::setStatus, Thread::OrderManager and the two comparisons of thread.cc. A burst time is a
-- double, whose arithmetic is a parameter. Ticks only grow, so a difference of a tick and an earlier
-- one is a number; priorities are not negative. Debug messages, which alone use the thread that
-- `last` names, are left out. `none` is a failed ASSERT_MSG.
pub mod Aging
use nthu_operating_system_er.Base.{
  ℕ, zero, suc, ◌+◌, ◌-◌, ◌*◌, ◌/◌, ◌≡◌, Bool, true, false, ◌&&◌, ◌||◌, Option, none, some, ℤ, pos,
  negsuc, ltb, leb, ltb_ℤ, if◌then◌else◌, ◌==◌, ◌>>=◌, ◌>>◌, assert, sub_ℕ,
}

-- The double arithmetic that the code uses.
pub record Double : Type 1 where
  pub D : Type 0
  pub zero_double : D
  pub of_int : ℕ → D
  pub add : D → D → D
  pub subtract : D → D → D
  -- 0.5 * x
  pub half : D → D
  -- as the condition of an `if`
  pub is_nonzero : D → Bool
  -- static_cast<int>
  pub to_int : D → ℤ

-- Truncation of a difference towards zero: if a - b does not truncate to a negative integer, then
-- b - a does not truncate to a positive one.
abbrev pub FlipsSign : Double → Type 0
FlipsSign f =
    (a b : f.D)
    → ltb_ℤ (f.to_int (f.subtract a b)) (pos 0) ≡ false
    → ltb_ℤ (pos 0) (f.to_int (f.subtract b a)) ≡ false

pub data ThreadStatus : Type 0 where
  just_created running ready blocked terminated zombie : ThreadStatus

pub record Thread (D : Type 0) : Type 0 where
  pub status : ThreadStatus
  pub priority : ℕ
  pub init_priority : ℕ
  pub tick_cache : ℕ
  pub remain_burst_time : D
  pub current_burst_time : D
  pub last_burst_time : D

abbrev pub is_ready : ThreadStatus → Bool
is_ready ready = true
is_ready _ = false

abbrev pub is_running : ThreadStatus → Bool
is_running running = true
is_running _ = false

abbrev pub aging_tick : ℕ
aging_tick = 1500

-- OrderManager::toReady
unfoldable pub to_ready : {D : Type 0} → ℕ → Thread D → Thread D
to_ready ticks t = record t { tick_cache = ticks; priority = t.init_priority }

-- OrderManager::readyToRun
unfoldable pub ready_to_run : {D : Type 0} → ℕ → Thread D → Thread D
ready_to_run ticks t = record t { tick_cache = ticks }

-- OrderManager::setPriority
unfoldable pub set_priority : {D : Type 0} → ℕ → Thread D → Option (Thread D)
set_priority priority t = do assert (ltb priority 150); some (record t { priority = priority })

-- OrderManager::aging
unfoldable pub aging : {D : Type 0} → ℕ → Thread D → Option (Thread D)
unfolding set_priority
aging ticks t = do
  assert (is_ready t.status)
  let age : ℕ = (ticks - t.tick_cache) / aging_tick
  if age == 0
      then some t
      else set_priority (if ltb (t.priority + 10 * age) 149 then t.priority + 10 * age else 149)
          (record t { tick_cache = t.tick_cache + aging_tick * age })

module _ (f : Double) where
  open f use {D, zero_double, of_int, add, subtract, half, is_nonzero, to_int}

  -- OrderManager::OrderManager, for a thread that is new
  unfoldable pub new_thread : ℕ → ℕ → Thread D
  new_thread ticks priority = record {
    status = just_created;
    priority = priority;
    init_priority = priority;
    tick_cache = ticks;
    remain_burst_time = zero_double;
    current_burst_time = zero_double;
    last_burst_time = zero_double;
  }

  -- OrderManager::leaveRun
  unfoldable pub leave_run : ℕ → Thread D → Option (Thread D)
  leave_run ticks t = do
    assert (is_running t.status)
    let burst : D = add t.current_burst_time (of_int (ticks - t.tick_cache))
    some (record t { tick_cache = ticks; current_burst_time = burst; last_burst_time = burst })

  -- OrderManager::getRemainTime
  unfoldable pub get_remain_time : ℕ → Thread D → D
  get_remain_time ticks t =
      if is_running t.status
      then subtract t.remain_burst_time
          (subtract (add t.current_burst_time (of_int ticks)) (of_int t.tick_cache))
      else subtract t.remain_burst_time t.current_burst_time

  -- OrderManager::runToWait
  unfoldable pub run_to_wait : ℕ → Thread D → Option (Thread D)
  unfolding leave_run
  run_to_wait ticks t = do
    left ← leave_run ticks t
    some (
        if is_nonzero left.current_burst_time
        then record left {
          remain_burst_time = add (half left.current_burst_time) (half left.remain_burst_time);
          current_burst_time = zero_double;
        }
        else left)

  -- OrderManager::runToReady
  unfoldable pub run_to_ready : ℕ → Thread D → Option (Thread D)
  unfolding leave_run to_ready
  run_to_ready ticks t = do left ← leave_run ticks t; some (to_ready ticks left)

  -- The transfer of the order manager in Thread::setStatus, by the old and the new status.
  unfoldable pub transfer : ThreadStatus → ThreadStatus → ℕ → Thread D → Option (Thread D)
  unfolding to_ready run_to_ready run_to_wait ready_to_run leave_run
  transfer just_created ready ticks t = some (to_ready ticks t)
  transfer running ready ticks t = run_to_ready ticks t
  transfer blocked ready ticks t = some (to_ready ticks t)
  transfer _ ready ticks t = none
  transfer running blocked ticks t = run_to_wait ticks t
  transfer ready running ticks t = some (ready_to_run ticks t)
  transfer _ running ticks t = none
  transfer running terminated ticks t = leave_run ticks t
  transfer _ terminated ticks t = none
  transfer _ _ ticks t = some t

  -- Thread::setStatus
  unfoldable pub set_status : ℕ → Thread D → ThreadStatus → Option (Thread D)
  unfolding transfer
  set_status ticks t st = do
    moved ← transfer t.status st ticks t
    some (record moved { status = st })

  -- The condition that both comparisons assert.
  unfoldable pub comparable : Thread D → Thread D → Bool
  comparable a b =
      is_ready a.status && is_running b.status
      || is_ready b.status && is_running a.status
      || is_ready a.status && is_ready b.status

  unfoldable pub cmp_remain_time : ℕ → Thread D → Thread D → Option ℤ
  unfolding comparable get_remain_time
  cmp_remain_time ticks a b = do
    assert (comparable a b)
    some (to_int (subtract (get_remain_time ticks a) (get_remain_time ticks b)))

  unfoldable pub cmp_priority : Thread D → Thread D → Option ℤ
  unfolding comparable
  cmp_priority a b = do assert (comparable a b); some (sub_ℕ b.priority a.priority)
