-- ===== src/Packfile/Scattered/FirstError.antt =====
-- packfile/reader.go, ReadItems: the error that the workers leave, which is what the call returns.
use event_analysis.Prelude.{
  ℕ, ◌≡◌, List, ◌∷◌, ◌++◌, All, Option, none, some, Bool, true, false, err,
}
use event_analysis.Zstd
use event_analysis.Packfile.Reader.{Reader}
use event_analysis.Packfile.Scattered.{IoBatch}
use event_analysis.Packfile.Scattered.Workers.{Round, Fault, packfile, callback, read_next}

module _ (z : Zstd.Library) (r : Reader) (positions : List ℕ) (batches : List IoBatch)
    (fn : ℕ → List ℕ → Option ℕ) where
  -- What the calls of `fn` tell of the error: without one, none of them failed; an error of `fn` was
  -- returned by one of them, and another one by the reading of an item.
  abbrev pub IsTold : List (ℕ × List ℕ) → Bool → Option Fault → Type 0
  IsTold calls cancelled none = All (λ c. fn c.0 c.1 ≡ none) calls × (cancelled ≡ false)
  IsTold calls cancelled (some (callback fault)) =
      ((front : List (ℕ × List ℕ)) × (c : ℕ × List ℕ) × (back : List (ℕ × List ℕ)) × (calls
          ≡ front ++ (c ∷ back))
        × (fn c.0 c.1 ≡ some fault))
      × (cancelled ≡ true)
  IsTold calls cancelled (some (packfile e)) =
      ((round : Round) × (p : ℕ) × (ps : List ℕ) × (read_next z r round p ps ≡ err e))
      × (cancelled ≡ true)

  -- An error stays.
  abbrev pub IsKept : Option Fault → Option Fault → Type 0
  IsKept none now = Unit {0}
  IsKept (some fault) now = now ≡ some fault
