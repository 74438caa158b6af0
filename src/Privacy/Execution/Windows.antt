-- ===== src/Privacy/Execution/Windows.antt =====
-- The windows of an execution are the common part of those of its outputs.
use logos_execution_zone.Prelude.{
  ℕ, String, ◌≡◌, ◌↔◌, refl, true, Option, none, some, List, [], ◌∷◌, map, All, ok, arith,
}
use logos_execution_zone.Core.Window.{ValidityWindow, starts_by, ends_after, is_valid_for, try_from}
use logos_execution_zone.Privacy.Execution.{
  max_of, min_of, max_bound, min_bound, expect_ok, intersection,
}

max_of_iff :
    (o p : Option ℕ) (v : ℕ)
    → (starts_by (max_of o p) v ≡ true) ↔ ((starts_by o v ≡ true) × (starts_by p v ≡ true))
max_of_iff none p v = ground arith
max_of_iff (some b) none v = ground arith
max_of_iff (some b) (some c) v = ground arith

min_of_iff :
    (o p : Option ℕ) (v : ℕ)
    → (ends_after (min_of o p) v ≡ true) ↔ ((ends_after o v ≡ true) × (ends_after p v ≡ true))
min_of_iff none p v = ground arith
min_of_iff (some b) none v = ground arith
min_of_iff (some b) (some c) v = ground arith

-- All windows are open at a value.
abbrev pub AllValid : List ValidityWindow → ℕ → Type 0
AllValid windows v = All (λ w. is_valid_for w v ≡ true) windows

max_bound_iff :
    (windows : List ValidityWindow) (v : ℕ)
    → (starts_by (max_bound (map (λ (w : ValidityWindow). w.start) windows)) v ≡ true)
      ↔ All (λ w. starts_by w.start v ≡ true) windows
unfolding max_bound
max_bound_iff [] v = (λ h. tt, λ h. refl)
max_bound_iff (w ∷ windows) v =
    let step = max_of_iff w.start (max_bound (map (λ (w : ValidityWindow). w.start) windows)) v in
    let rest = max_bound_iff windows v in
    (λ h. ((step.0 h).0, rest.0 ((step.0 h).1)), λ h. step.1 (h.0, rest.1 h.1))

min_bound_iff :
    (windows : List ValidityWindow) (v : ℕ)
    → (ends_after (min_bound (map (λ (w : ValidityWindow). w.end) windows)) v ≡ true)
      ↔ All (λ w. ends_after w.end v ≡ true) windows
unfolding min_bound
min_bound_iff [] v = (λ h. tt, λ h. refl)
min_bound_iff (w ∷ windows) v =
    let step = min_of_iff w.end (min_bound (map (λ (w : ValidityWindow). w.end) windows)) v in
    let rest = min_bound_iff windows v in
    (λ h. ((step.0 h).0, rest.0 ((step.0 h).1)), λ h. step.1 (h.0, rest.1 h.1))

AllValid-iff :
    (windows : List ValidityWindow) (v : ℕ)
    → AllValid windows v ↔ (
        All (λ w. starts_by w.start v ≡ true) windows
        × All (λ w. ends_after w.end v ≡ true) windows)
unfolding is_valid_for
AllValid-iff [] v = (λ h. (tt, tt), λ h. tt)
AllValid-iff (w ∷ windows) v =
    let rest = AllValid-iff windows v in
    (
      λ h.
          let (s, e) = rest.0 h.1 in
          let first : (starts_by w.start v ≡ true) × (ends_after w.end v ≡ true) = ground arith in
          ((first.0, s), (first.1, e)),
      λ h. (ground arith, rest.1 ((h.0).1, (h.1).1)),
    )

try_from-fields :
    (start end : Option ℕ) (message : String) {w : ValidityWindow}
    → expect_ok (try_from start end) message ≡ ok w
    → (w.start ≡ start) × (w.end ≡ end)
unfolding try_from
try_from-fields none none message h = (cc h, cc h)
try_from-fields none (some b) message h = (cc h, cc h)
try_from-fields (some a) none message h = (cc h, cc h)
try_from-fields (some a) (some b) message h = ground arith

-- A window that is found is open exactly where all are.
pub intersection_iff :
    (windows : List ValidityWindow) (message : String) (v : ℕ) {w : ValidityWindow}
    → intersection windows message ≡ ok w
    → (is_valid_for w v ≡ true) ↔ AllValid windows v
unfolding intersection is_valid_for
intersection_iff windows message v {w} h =
    let (start, end) = try_from-fields _ _ message h in
    let opens = max_bound_iff windows v in
    let closes = min_bound_iff windows v in
    let parts = AllValid-iff windows v in
    (
      λ valid.
          let both : (starts_by w.start v ≡ true) × (ends_after w.end v ≡ true) = ground arith in
          parts.1 (opens.0 (rw start at (both.0)), closes.0 (rw end at (both.1))),
      λ valid.
          let (s, e) = parts.0 valid in
          let first : starts_by w.start v ≡ true = rw start (opens.1 s) in
          let last : ends_after w.end v ≡ true = rw end (closes.1 e) in ground arith,
    )
