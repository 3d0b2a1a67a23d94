-- ===== src/Performance/Numbers.antt =====
-- The numbers in the messages of performance/bus.cpp.
use nng_examples.Prelude.{ℕ, ◌+◌, ◌*◌, ◌/◌, ◌%◌, ◌<◌, ◌≡◌, ◌^◌, ap, ◌++◌, some, arith}
use nng_examples.Bytes.{Bytes}
use nng_examples.Platform.Documented.{word, load_word}

pub load_word-word : (x : ℕ) (rest : Bytes) → x < 2 ^ 32 → load_word (word x ++ rest) ≡ some x
load_word-word x rest lt =
    let e : x % 256
          + 2 ^ 8 * (x / 2 ^ 8 % 256)
          + 2 ^ 16 * (x / 2 ^ 16 % 256)
          + 2 ^ 24 * (x / 2 ^ 24 % 256)
        ≡ x =
      omega arith in
    ap some e
