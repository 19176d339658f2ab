-- ===== src/Confidence/Bands.antt =====
-- How the bands order the confidences, and what a call's score says of its signals.
use logiclens.Shared.{ℕ, ◌≤◌, ◌≡◌, Bool, true, arith, ◌⊎◌, ◌↔◌}
use logiclens.Confidence.{
  ConfidenceBand, exact, probable, heuristic, confidence_band, CallCandidate, score_call_resolution,
}

-- The place of a band in the order heuristic, probable, exact.
abbrev pub rank : ConfidenceBand → ℕ
rank heuristic = 0
rank probable = 1
rank exact = 2

-- A higher confidence never falls in a lower band.
pub confidence_band_mono : (a b : ℕ) → a ≤ b → rank (confidence_band a) ≤ rank (confidence_band b)
unfolding confidence_band
confidence_band_mono a b h = ground arith

abbrev pub Implies : Bool → Bool → Type 0
Implies a b = a ≡ true → b ≡ true

-- A call whose every signal is also a signal of another call has at most its score.
pub score_call_resolution_mono :
    (c d : CallCandidate)
    → Implies c.same_file d.same_file
    → Implies c.imported d.imported
    → Implies c.same_repo d.same_repo
    → Implies c.name_exact d.name_exact
    → score_call_resolution c ≤ score_call_resolution d
unfolding score_call_resolution
score_call_resolution_mono c d f i r n = ground arith

-- A call is in the exact band exactly when the name matches, the file is the same, and the symbol
-- is imported or stands in the same repository.
pub exact_call_iff :
    (c : CallCandidate)
    → (confidence_band (score_call_resolution c) ≡ exact) ↔ (
        (c.name_exact ≡ true) × (c.same_file ≡ true) × ((c.imported ≡ true) ⊎ (c.same_repo ≡ true)))
unfolding confidence_band score_call_resolution
exact_call_iff c = ground arith
