-- ===== src/Gossip/Detector.antt =====
-- pkg/gossip/failuredetector.go: the accrual failure detector. `none` is a panic. Times are
-- nanoseconds, 0 is the zero time, and two times lie less than 2 ^ 63 apart.
pub mod Sum
mod Examples
use mathlib.Core.Option
use piko.Prelude.{
  ℕ, zero, suc, ◌+◌, String, Bool, true, false, ◌&&◌, Option, none, some, List, [], ◌∷◌, Map,
  lookup, insert, remove, length, get_elem?, ltb, ◌==◌, if◌then◌else◌,
}
use piko.Prelude.Int.{ℤ, pos, diff, add_int, sub_int}

-- What the detector uses of float64, whose numbers are not modelled.
pub record Floats (F : Type 0) : Type 0 where
  pub zero_float : F
  pub of_int : ℤ → F
  pub quotient : F → F → F
  pub is_positive : F → Bool

-- `arrivalIntervals`
pub record Intervals (F : Type 0) : Type 0 where
  pub intervals : List ℤ
  pub index : ℕ
  pub is_full : Bool
  pub sum : ℤ
  pub mean : F

-- `arrivalWindow`
pub record Window (F : Type 0) : Type 0 where
  pub last_timestamp : ℕ
  pub intervals : Intervals F
  pub bootstrap_interval : ℕ

-- `accrualFailureDetector`
pub record Detector (F : Type 0) : Type 0 where
  pub windows : Map (Window F)
  pub bootstrap_interval : ℕ
  pub sample_size : ℕ

-- `make([]int64, n)`
unfoldable pub zeros : ℕ → List ℤ
zeros zero = []
zeros (suc n) = pos 0 ∷ zeros n

-- xs[i] = x, for an index in range
unfoldable pub set_elem : {A : Type 0} → ℕ → A → List A → List A
set_elem i x [] = []
set_elem zero x (y ∷ ys) = x ∷ ys
set_elem (suc i) x (y ∷ ys) = y ∷ set_elem i x ys

-- `size`
unfoldable pub size : {F : Type 0} → Intervals F → ℕ
size i = if i.is_full then length i.intervals else i.index

module _ {F : Type 0} (fl : Floats F) where
  -- `newArrivalIntervals`
  unfoldable pub new_intervals : ℕ → Intervals F
  unfolding zeros
  new_intervals n = record {
    intervals = zeros n;
    index = 0;
    is_full = false;
    sum = pos 0;
    mean = fl.zero_float;
  }

  -- The rest of `arrivalIntervals.Add`, once the index is in place, over the interval that stood
  -- there.
  unfoldable pub put_interval : ℤ → ℕ → Bool → ℤ → Intervals F → Intervals F
  unfolding set_elem size
  put_interval x index is_full old i =
      let i' : Intervals F = record {
        intervals = set_elem index x i.intervals;
        index = index + 1;
        is_full = is_full;
        sum = add_int (if is_full then sub_int i.sum old else i.sum) x;
        mean = i.mean;
      } in
      record i' { mean = fl.quotient (fl.of_int i'.sum) (fl.of_int (pos (size i'))) }

  -- `arrivalIntervals.Add`
  unfoldable pub add_interval : ℤ → Intervals F → Option (Intervals F)
  unfolding put_interval
  add_interval x i =
      let at_end = i.index == length i.intervals in
      let index = if at_end then 0 else i.index in
      let is_full = if at_end then true else i.is_full in
      Option.map (λ old. put_interval x index is_full old i) (get_elem? i.intervals index)

  -- `newArrivalWindow`
  unfoldable pub new_window : ℕ → ℕ → Window F
  unfolding new_intervals
  new_window bootstrap_interval sample_size = record {
    last_timestamp = 0;
    intervals = new_intervals sample_size;
    bootstrap_interval = bootstrap_interval;
  }

  -- `Phi`
  unfoldable pub phi : ℕ → Window F → Option F
  unfolding diff
  phi t w =
      if ltb 0 w.last_timestamp && fl.is_positive w.intervals.mean
      then some (fl.quotient (fl.of_int (diff t w.last_timestamp)) w.intervals.mean)
      else none

  -- `arrivalWindow.Add`
  unfoldable pub add_arrival : ℕ → Window F → Option (Window F)
  unfolding add_interval diff
  add_arrival t w =
      let x =
        if ltb 0 w.last_timestamp then diff t w.last_timestamp else pos w.bootstrap_interval in
      Option.map (λ i. record w { intervals = i; last_timestamp = t }) (add_interval x w.intervals)

  -- `newAccrualFailureDetector`
  unfoldable pub new_detector : ℕ → ℕ → Detector F
  new_detector bootstrap_interval sample_size = record {
    windows = [];
    bootstrap_interval = bootstrap_interval;
    sample_size = sample_size;
  }

  unfoldable pub put_window : String → Detector F → Window F → Detector F
  unfolding insert
  put_window id d w = record d { windows = insert id w d.windows }

  -- `ReportWithTimestamp`; `Report` is this at the time of the clock.
  unfoldable pub report : String → ℕ → Detector F → Option (Detector F)
  unfolding add_arrival new_window lookup put_window
  report id t d =
      let w : Window F = elim (lookup id d.windows) [
        | none ↦ new_window d.bootstrap_interval d.sample_size
        | some w ↦ w
      ] in
      Option.map (put_window id d) (add_arrival t w)

  unfoldable pub level_of : ℕ → Detector F → Window F → Option (F × Detector F)
  unfolding phi
  level_of t d w = Option.map (λ p. (p, d)) (phi t w)

  -- `SuspicionLevelAt`; `SuspicionLevel` is this at the time of the clock.
  unfoldable pub suspicion_level : String → ℕ → Detector F → Option (F × Detector F)
  unfolding level_of add_arrival new_window lookup put_window
  suspicion_level id t d = elim (lookup id d.windows) [
    | some w ↦ level_of t d w
    | none ↦ elim (add_arrival t (new_window d.bootstrap_interval d.sample_size)) [
      | none ↦ none
      | some w ↦ level_of t (put_window id d w) w
    ]
  ]

  -- `accrualFailureDetector.Remove`
  unfoldable pub forget : String → Detector F → Detector F
  unfolding remove
  forget id d = record d { windows = remove id d.windows }
