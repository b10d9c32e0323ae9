-- ===== src/Schedules/Tests.antt =====
-- The schedule of the program.
use automated_stock_trading.Common.{map}
use automated_stock_trading.Schedules.{beat_schedule}
use automated_stock_trading.Schedules.Beat.{entry, beat_schedule_lem}
use automated_stock_trading.Common.{◌≡◌, refl, length, select}
use mathlib.Core.List.{Perm}
use automated_stock_trading.Schedules.{schedule, check_unique, range_from, pipeline_jobs}
use automated_stock_trading.Schedules.Pipeline.{
  keys, staged, has_order, IsKeyed, pipeline_jobs-IsKeyed,
}

pipeline_jobs-IsKeyed_example :
    (keys (pipeline_jobs schedule) ≡ range_from 1 (length (select has_order schedule)))
    × IsKeyed (pipeline_jobs schedule)
    × Perm (staged (pipeline_jobs schedule)) (select has_order schedule)
unfolding check_unique
pipeline_jobs-IsKeyed_example = pipeline_jobs-IsKeyed schedule refl

beat_schedule_lem_example : beat_schedule schedule ≡ map entry schedule
unfolding check_unique
beat_schedule_lem_example = beat_schedule_lem schedule refl
