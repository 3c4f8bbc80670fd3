-- ===== src/Scanner/Defs.antt =====
-- A turn, and the loop over turns. `pos` counts the bytes that the call has consumed so far.
use dracon.Prelude.{ℕ, zero, suc, ◌+◌, Bytes, drop, Result, ok, out_of_fuel, ◌>>=◌}

pub data Turn (S : Type 0) : Type 0 where
  again : S → ℕ → Turn S
  stop : S → ℕ → Turn S

module _ {S : Type 0} where
  -- What follows a turn; `rec` is the loop.
  abbrev pub next_turn : (S → ℕ → Bytes → Result (S × ℕ)) → ℕ → Bytes → Turn S → Result (S × ℕ)
  next_turn rec pos rest (again s n) = rec s (pos + n) (drop n rest)
  next_turn rec pos rest (stop s n) = ok (s, pos + n)

  unfoldable pub scan : (S → Bytes → Result (Turn S)) → ℕ → S → ℕ → Bytes → Result (S × ℕ)
  scan step zero s pos rest = out_of_fuel
  scan step (suc fuel) s pos rest = step s rest >>= λ t. next_turn (scan step fuel) pos rest t
