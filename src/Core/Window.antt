-- ===== src/Core/Window.antt =====
-- nssa/core/src/program.rs: `ValidityWindow`, at the `u64` block identifiers and timestamps at
-- which the program uses it.
use logos_execution_zone.Prelude.{
  ℕ, ◌≤◌, ◌<◌, ◌≡◌, ◌↔◌, Bool, true, ◌&&◌, Option, none, some, arith, ltb, leb, Result, ok, err,
  if◌then◌else◌, ◌>>◌,
}

-- The fields `from` and `to`.
pub record ValidityWindow : Type 0 where
  pub start : Option ℕ
  pub end : Option ℕ

abbrev pub new_unbounded : ValidityWindow
new_unbounded = record { start = none; end = none }

pub data InvalidWindow : Type 0 where
  invalid_window : InvalidWindow

-- `from.is_none_or(|start| value >= start)` and `to.is_none_or(|end| value < end)`
abbrev pub starts_by : Option ℕ → ℕ → Bool
starts_by none v = true
starts_by (some start) v = leb start v

abbrev pub ends_after : Option ℕ → ℕ → Bool
ends_after none v = true
ends_after (some end) v = ltb v end

unfoldable pub is_valid_for : ValidityWindow → ℕ → Bool
is_valid_for w v = starts_by w.start v && ends_after w.end v

-- `check_window`, on the two bounds.
check_window : Option ℕ → Option ℕ → Result InvalidWindow (Unit {0})
check_window (some start) (some end) = if leb end start then err invalid_window else ok tt
check_window (some start) none = ok tt
check_window none end = ok tt

-- The conversion from a pair of bounds.
unfoldable pub try_from : Option ℕ → Option ℕ → Result InvalidWindow ValidityWindow
unfolding check_window
try_from start end = check_window start end >> ok (record { start = start; end = end })

abbrev pub from_range_from : ℕ → ValidityWindow
from_range_from start = record { start = some start; end = none }

abbrev pub from_range_to : ℕ → ValidityWindow
from_range_to end = record { start = none; end = some end }

-- The interval that a pair of bounds stands for.
abbrev pub InWindow : Option ℕ → Option ℕ → ℕ → Type 0
InWindow none none v = Unit
InWindow (some a) none v = a ≤ v
InWindow none (some b) v = v < b
InWindow (some a) (some b) v = (a ≤ v) × (v < b)

-- A window that `try_from` accepts is valid for exactly the values from its start, included, to
-- its end, excluded, where a missing bound does not restrict.
pub try_from-is_valid_for :
    (start end : Option ℕ) (w : ValidityWindow) (v : ℕ)
    → try_from start end ≡ ok w
    → (is_valid_for w v ≡ true) ↔ InWindow start end v
unfolding try_from is_valid_for
try_from-is_valid_for none none w v h = ground arith
try_from-is_valid_for (some a) none w v h = ground arith
try_from-is_valid_for none (some b) w v h = ground arith
try_from-is_valid_for (some a) (some b) w v h = ground arith

-- `try_from` refuses two bounds exactly if no value lies in their interval.
pub try_from-refuses_empty :
    (a b : ℕ)
    → (try_from (some a) (some b) ≡ err invalid_window) ↔ ((v : ℕ) → ¬ InWindow (some a) (some b) v)
unfolding try_from
try_from-refuses_empty a b = (λ h v k. ground arith, λ h. ground (arith, h a))
