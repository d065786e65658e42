-- ===== src/Visualizer/Tests.antt =====
-- Half past nine, and three milliseconds.
use tickpipe.Base.{◌≡◌, refl, ◌/◌, ◌%◌}
use tickpipe.Visualizer.{fmt_time}
use tickpipe.Visualizer.Clock.{read_time}

shown : read_time (fmt_time 34_200_003_000_000) ≡ 34_200_003_000_000 / 1_000_000 % 360_000_000
unfolding fmt_time read_time
shown = refl
