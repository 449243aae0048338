-- ===== src/Random/Tests.antt =====
-- Runs of random.cc.
use rtc_base.Common.{◌≤◌, arith}
use rtc_base.Random.{rand_between}
use rtc_base.Random.Bounds.{rand_between_bounds}

rand_between_bounds_example : (10 ≤ (rand_between 10 19 7).0) × ((rand_between 10 19 7).0 ≤ 19)
rand_between_bounds_example = rand_between_bounds 10 19 7 (omega arith) (omega arith)
