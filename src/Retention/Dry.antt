-- ===== src/Retention/Dry.antt =====
-- A dry run.
use vpn_platform.Prelude.{
  ℕ, ◌≡◌, refl, ◌∙◌, true, ◌||◌, String, Option, none, some, List, [], ◌∷◌, Result, ok, err, All,
  if-elim, arith,
}
use vpn_platform.Prelude.Int.{ℤ, pos, ltb_ℤ}
use vpn_platform.Retention.{
  Eligibility, Dataset, Settings, Report, Outcome, empty_report, check_settings, first_of,
  check_datasets, after_preview, preview_of, visit, go_on, visit_all, run_checked, run,
}

-- A preview only reads.
abbrev pub IsReadOnly : {W : Type 0} → Dataset W → Type 0
IsReadOnly {W} d = (cutoff : ℤ) (w : W) → (preview_of d.preview cutoff w).1 ≡ w

module _ {W : Type 0} where
  -- The world stays, and so does the mode, unless the run ends here.
  record Untouched (w : W) (v : (Report × Option String) × W) : Type 0 where
    same : v.1 ≡ w
    dry : v.0.1 ≡ none → v.0.0.dry_run ≡ true

  after_preview-Untouched :
      (d : Dataset W) (cutoff : ℤ) (r : Report) (p : Result String Eligibility × W)
      → r.dry_run ≡ true
      → Untouched p.1 (after_preview d cutoff r p)
  unfolding after_preview
  after_preview-Untouched d cutoff r (err e, w) h = record { same = refl; dry = λ k. cc }
  after_preview-Untouched d cutoff r (ok e, w) h =
      if-elim (Untouched w) (ltb_ℤ e.eligible (pos 0) || ltb_ℤ e.protected (pos 0)) _ _
        (λ bad. record { same = refl; dry = λ k. cc })
        (λ good.
          if-elim (Untouched w) r.dry_run _ _ (λ dry. record { same = refl; dry = λ k. h })
            (λ wet. absurd (ground arith)))

  go_on-same :
      (next : Report → W → Outcome × W) (w : W) (v : (Report × Option String) × W)
      → Untouched w v
      → ((r : Report) (w : W) → r.dry_run ≡ true → (next r w).1 ≡ w)
      → (go_on next v).1 ≡ w
  unfolding go_on
  go_on-same next w ((r, none), after) h k = k r after (h.dry refl) ∙ h.same
  go_on-same next w ((r, some m), after) h k = h.same

  visit_all-same :
      (now : ℕ) (ds : List (Dataset W)) (r : Report) (w : W)
      → All IsReadOnly ds
      → r.dry_run ≡ true
      → (visit_all now ds r w).1 ≡ w
  unfolding visit_all visit
  visit_all-same now [] r w h k = refl
  visit_all-same now (d ∷ ds) r w h k =
      go_on-same (visit_all now ds) _ _ (after_preview-Untouched d _ r _ k)
        (λ r w k. visit_all-same now ds r w h.1 k)
      ∙ h.0 _ w

  -- A dry run of data sets whose previews only read leaves the world as it is: it deletes nothing, on
  -- every path.
  pub run-dry :
      (owner : String) (now : ℕ) (s : Settings) (ds : List (Dataset W)) (w : W)
      → s.dry_run ≡ true
      → All IsReadOnly ds
      → (run owner now s ds w).1 ≡ w
  unfolding run run_checked
  run-dry owner now s ds w h k =
      checked (first_of (check_settings owner now s) (check_datasets [] ds))
    where
      checked : (o : Option String) → (run_checked o owner now s ds w).1 ≡ w
      checked none = visit_all-same now ds (empty_report owner now s) w k h
      checked (some m) = refl
