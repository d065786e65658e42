-- ===== src/Visualizer/Clock.antt =====
-- The clock of a frame can be read back.
use tickpipe.Base.{
  ℕ, ◌+◌, ◌-◌, ◌*◌, ◌/◌, ◌%◌, ◌^◌, ◌<◌, ◌≡◌, ap₂, ◌∙◌, arith, List, get_or, length, u32,
}
use tickpipe.Visualizer.{fmt_time}

-- The digit at a place, and the milliseconds that `hh:mm:ss.mmm` stands for.
abbrev pub digit : List ℕ → ℕ → ℕ
digit text i = get_or text i 0 - 48

abbrev in_ms : ℕ → ℕ → ℕ → ℕ → ℕ
in_ms h m s ms = ((h * 60 + m) * 60 + s) * 1000 + ms

abbrev pub read_time : List ℕ → ℕ
read_time t =
    in_ms (digit t 0 * 10 + digit t 1) (digit t 3 * 10 + digit t 4) (digit t 6 * 10 + digit t 7)
      (digit t 9 * 100 + digit t 10 * 10 + digit t 11)

abbrev two_of : ℕ → ℕ
two_of n = (48 + n / 10 - 48) * 10 + (48 + n % 10 - 48)

abbrev three_of : ℕ → ℕ
three_of n = (48 + n / 100 - 48) * 100 + (48 + n / 10 % 10 - 48) * 10 + (48 + n % 10 - 48)

two_back : (n : ℕ) → two_of n ≡ n
two_back n = omega arith

three_back : (n : ℕ) → n < 1000 → three_of n ≡ n
three_back n lt = omega arith

whole :
    (t : ℕ)
    → in_ms (t / 1000 / 3600 % 100) (t / 1000 / 60 % 60) (t / 1000 % 60) (t % 1000)
      ≡ t % 360_000_000
whole t = omega arith

-- For a 64-bit number of nanoseconds `fmt_time` writes twelve characters, and the hours, minutes,
-- seconds and milliseconds that they stand for make up its milliseconds, up to multiples of a
-- hundred hours.
pub read_time-fmt_time :
    (ns : ℕ)
    → ns < 2 ^ 64
    → (length (fmt_time ns) ≡ 12) × (read_time (fmt_time ns) ≡ ns / 1_000_000 % 360_000_000)
unfolding fmt_time
read_time-fmt_time ns lt =
    let t = ns / 1_000_000 in
    let h : u32 (t / 1000 / 3600) ≡ t / 1000 / 3600 = omega arith in
    let m : u32 (t / 1000 / 60 % 60) ≡ t / 1000 / 60 % 60 = omega arith in
    let s : u32 (t / 1000 % 60) ≡ t / 1000 % 60 = omega arith in
    let ms : u32 (t % 1000) ≡ t % 1000 = omega arith in
    let h0 = u32 (t / 1000 / 3600) in
    let m0 = u32 (t / 1000 / 60 % 60) in
    let s0 = u32 (t / 1000 % 60) in
    let ms0 = u32 (t % 1000) in
    (
      omega arith,
      ap₂ (λ (a : ℕ) (b : ℕ). in_ms a b (two_of s0) (three_of ms0)) (two_back (h0 % 100))
            (two_back m0)
          ∙ ap₂ (λ (c : ℕ) (d : ℕ). in_ms (h0 % 100) m0 c d) (two_back s0)
              (three_back ms0 (omega arith))
          ∙ ap₂ (λ (a : ℕ) (b : ℕ). in_ms (a % 100) b s0 ms0) h m
          ∙ ap₂ (λ (c : ℕ) (d : ℕ). in_ms (t / 1000 / 3600 % 100) (t / 1000 / 60 % 60) c d) s ms
          ∙ whole t,
    )
