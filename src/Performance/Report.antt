-- ===== src/Performance/Report.antt =====
-- The lines that the timing programs print. Floating point numbers and std::chrono are not of the
-- repository: they are a parameter.
use nng_examples.Prelude.{ℕ, ◌++◌}
use nng_examples.Bytes.{Bytes, text}
use nng_examples.Platform.{print, stdout, Prog, ◌>>◌, act}
use nng_examples.Checked.{newline}

-- `milliseconds b e` is (double)duration_cast<milliseconds>(e - b).count() for two readings of the
-- clock, `shown` what operator<< writes.
pub record Doubles : Type 1 where
  pub Double : Type 0
  pub of_size : ℕ → Double
  pub milliseconds : ℕ → ℕ → Double
  pub divide : Double → Double → Double
  pub times : Double → Double → Double
  pub shown : Double → Bytes

module _ (d : Doubles) where
  abbrev pub seconds : ℕ → ℕ → d.Double
  seconds b e = d.divide (d.milliseconds b e) (d.of_size 1000)

  -- Messages and bytes, in a second.
  abbrev pub per_second : ℕ → d.Double → d.Double
  per_second n time = d.divide (d.of_size n) time

  unfoldable pub line : Bytes → d.Double → Prog (Unit {0})
  line label x = act (print stdout (label ++ d.shown x ++ newline))

  -- Of `count` messages with `bytes` bytes together.
  unfoldable pub report : ℕ → ℕ → ℕ → ℕ → Prog (Unit {0})
  report count bytes begin end =
      let time = seconds begin end in
      line (text "Time:       ") time
      >> (line (text "msgs/sec:   ") (per_second count time)
          >> line (text "KB/sec:     ") (d.divide (per_second bytes time) (d.of_size 1024)))
