-- ===== src/Retention/Bounds.antt =====
-- What a retention run may delete, and how it ends.
use Prim.Native.Nat.{zero}
use vpn_platform.Prelude.{
  ℕ, suc, ◌+◌, ◌-◌, ◌≤◌, ◌<◌, ◌≡◌, ◌≢◌, refl, arith, true, false, ◌||◌, String, Option, none, some,
  List, [], ◌∷◌, ltb, Result, ok, err, All, if-elim,
}
use vpn_platform.Prelude.Int.{ℤ, pos, negsuc, pos_part, ltb_ℤ}
use vpn_platform.Prelude.Tables.{All-append_one}
use vpn_platform.Retention.{
  Eligibility, Dataset, DatasetReport, FailureReport, Settings, Report, Outcome, refused, completed,
  failed, Stop, done, delete_failed, exceeded, out_of_fuel, batch_limit, add_item, empty_report,
  check_settings, first_of, is_set, valid_dataset, check_datasets, after_batch, delete_loop,
  after_deletions, delete_from, after_preview, visit, go_on, visit_all, run_checked, run,
}

-- At most `max` rows are deleted, and the estimate of the rest is what was eligible before.
abbrev pub IsWithin : ℕ → DatasetReport → Type 0
IsWithin max i = (i.deleted ≤ max) × (i.remaining_estimate ≡ i.eligible - i.deleted)

-- A report is complete, or it is marked as failed and names the data set and the stage.
abbrev pub IsBounded : ℕ → Outcome → Type 0
IsBounded max (refused m) = Unit {0}
IsBounded max (completed r) =
    All (IsWithin max) r.datasets × (r.status ≡ "completed") × (r.failure ≡ none)
IsBounded max (failed r m) =
    All (IsWithin max) r.datasets
    × (r.status ≡ "failed")
    × (f : FailureReport) × (r.failure ≡ some f)

limit_bounds :
    (batch max deleted : ℕ)
    → 1 ≤ batch
    → deleted < max
    → (1 ≤ batch_limit batch max deleted) × (deleted + batch_limit batch max deleted ≤ max)
limit_bounds batch max deleted h k = ground arith

module _ {W : Type 0} (batch max : ℕ) (positive : 1 ≤ batch) where
  abbrev Ended : (Stop × ℕ) × W → Type 0
  Ended r = (r.0.0 ≢ out_of_fuel) × (r.0.1 ≤ max)

  after_batch-Ended :
      (next : ℕ → W → (Stop × ℕ) × W) (deleted limit : ℕ) (r : Result String ℤ × W)
      → deleted + limit ≤ max
      → ((w : W) → Ended (next (deleted + limit) w))
      → Ended (after_batch next deleted limit r)
  unfolding after_batch
  after_batch-Ended next deleted limit (err e, w) h k = (λ x. cc, omega arith)
  after_batch-Ended next deleted limit (ok (negsuc n), w) h k = (λ x. cc, omega arith)
  after_batch-Ended next deleted limit (ok (pos n), w) h k =
      if-elim Ended (ltb limit n) _ _ (λ e. (λ x. cc, omega arith))
        (λ e.
          if-elim Ended (ltb n limit) _ _ (λ f. (λ x. cc, ground arith))
            (λ f. let same : limit ≡ n = ground arith in rw same at (k w)))

  delete_loop-Ended :
      (delete : ℕ → W → Result String ℤ × W) (fuel deleted : ℕ) (w : W)
      → deleted ≤ max
      → max ≤ deleted + fuel
      → Ended (delete_loop delete batch max fuel deleted w)
  unfolding delete_loop
  delete_loop-Ended delete zero deleted w h k =
      let full : ltb deleted max ≡ false = ground arith in rw full (λ x. cc, h)
  delete_loop-Ended delete (suc fuel) deleted w h k =
      if-elim Ended (ltb deleted max) _ _
        (λ e.
          let (some', fits) = limit_bounds batch max deleted positive (ground arith) in
          after_batch-Ended (delete_loop delete batch max fuel) deleted
            (batch_limit batch max deleted) (delete (batch_limit batch max deleted) w) fits
            (λ v.
              delete_loop-Ended delete fuel (deleted + batch_limit batch max deleted) v fits
                (omega (arith, some', k))))
        (λ e. (λ x. cc, h))

-- The report so far, while nothing has failed.
record Running (max : ℕ) (r : Report) : Type 0 where
  within : All (IsWithin max) r.datasets
  going : r.status ≡ "completed"
  sound : r.failure ≡ none
  stepping : 1 ≤ r.batch_size
  bounded : r.max_delete ≡ max

-- What one data set leaves.
abbrev Visited : {W : Type 0} → ℕ → (Report × Option String) × W → Type 0
Visited max ((r, none), w) = Running max r
Visited max ((r, some m), w) = IsBounded max (failed r m)

add_item-Running :
    {max : ℕ} (i : DatasetReport) (r : Report)
    → IsWithin max i
    → Running max r
    → Running max (add_item i r)
add_item-Running {max} i r h k = record {
  within = All-append_one (IsWithin max) r.datasets i k.within h;
  going = k.going;
  sound = k.sound;
  stepping = k.stepping;
  bounded = k.bounded;
}

module _ {W : Type 0} (max : ℕ) where
  after_deletions-Visited :
      (d : Dataset W) (i : DatasetReport) (r : Report) (s : Stop) (w : W)
      → IsWithin max i
      → s ≢ out_of_fuel
      → Running max r
      → Visited max (after_deletions d i r s, w)
  after_deletions-Visited d i r done w h n k = add_item-Running i r h k
  after_deletions-Visited d i r delete_failed w h n k =
      ((add_item-Running i r h k).within, refl, _, refl)
  after_deletions-Visited d i r exceeded w h n k =
      ((add_item-Running i r h k).within, refl, _, refl)
  after_deletions-Visited d i r out_of_fuel w h n k = absurd (n refl)

  delete_from-Visited :
      (d : Dataset W) (cutoff : ℤ) (o : Option (ℤ → ℕ → W → Result String ℤ × W)) (e p : ℕ)
      (r : Report) (w : W)
      → is_set o ≡ true
      → Running max r
      → Visited max (delete_from d cutoff o e p r w)
  unfolding delete_from
  delete_from-Visited d cutoff none e p r w h k = cc
  delete_from-Visited d cutoff (some delete) e p r w h k =
      let (live, fits) =
        delete_loop-Ended r.batch_size r.max_delete k.stepping (delete cutoff) r.max_delete 0 w
          (omega arith) (omega arith) in
      after_deletions-Visited d _ r _ _ (omega (arith, fits, k.bounded), refl) live k

  after_preview-Visited :
      (d : Dataset W) (cutoff : ℤ) (r : Report) (p : Result String Eligibility × W)
      → is_set d.delete_batch ≡ true
      → Running max r
      → Visited max (after_preview d cutoff r p)
  unfolding after_preview
  after_preview-Visited d cutoff r (err e, w) h k = (k.within, refl, _, refl)
  after_preview-Visited d cutoff r (ok e, w) h k =
      if-elim (Visited max) (ltb_ℤ e.eligible (pos 0) || ltb_ℤ e.protected (pos 0)) _ _
        (λ bad. (k.within, refl, _, refl))
        (λ good.
          if-elim (Visited max) r.dry_run _ _ (λ dry. add_item-Running _ r (omega arith, refl) k)
            (λ wet. delete_from-Visited d cutoff d.delete_batch _ _ r w h k))

  -- The data sets that passed the check have both functions.
  check_datasets-deletes :
      (seen : List String) (d : Dataset W) (ds : List (Dataset W))
      → check_datasets seen (d ∷ ds) ≡ none
      → (is_set d.delete_batch ≡ true) × (check_datasets (d.name ∷ seen) ds ≡ none)
  unfolding check_datasets valid_dataset
  check_datasets-deletes seen d ds h = ground arith

  go_on-IsBounded :
      (next : Report → W → Outcome × W) (v : (Report × Option String) × W)
      → Visited max v
      → ((r : Report) (w : W) → Running max r → IsBounded max (next r w).0)
      → IsBounded max (go_on next v).0
  unfolding go_on
  go_on-IsBounded next ((r, none), w) h k = k r w h
  go_on-IsBounded next ((r, some m), w) h k = h

  visit_all-IsBounded :
      (now : ℕ) (seen : List String) (ds : List (Dataset W)) (r : Report) (w : W)
      → check_datasets seen ds ≡ none
      → Running max r
      → IsBounded max (visit_all now ds r w).0
  unfolding visit_all visit
  visit_all-IsBounded now seen [] r w h k = (k.within, k.going, k.sound)
  visit_all-IsBounded now seen (d ∷ ds) r w h k =
      let (deletes, rest) = check_datasets-deletes seen d ds h in
      go_on-IsBounded (visit_all now ds) _ (after_preview-Visited d _ r _ deletes k)
        (λ r w k. visit_all-IsBounded now (d.name ∷ seen) ds r w rest k)

check_settings-positive :
    (owner : String) (now : ℕ) (s : Settings)
    → check_settings owner now s ≡ none
    → 1 ≤ pos_part s.batch_size
unfolding check_settings
check_settings-positive owner now s h = stepping s.batch_size (ground arith)
  where
    stepping : (b : ℤ) → ltb_ℤ b (pos 1) ≡ false → 1 ≤ pos_part b
    stepping (pos n) h = ground arith
    stepping (negsuc n) h = cc

-- Whatever the data sets answer, a run is refused by the checks, or it gives a report in which each
-- data set has at most the configured number of deletions and the estimate that follows from them;
-- the report is complete, or it is marked as failed and names a data set and a stage. The loop of
-- deletions never runs out of its fuel.
pub run-IsBounded :
    {W : Type 0} (owner : String) (now : ℕ) (s : Settings) (ds : List (Dataset W)) (w : W)
    → IsBounded (pos_part s.max_delete) (run owner now s ds w).0
unfolding run run_checked
run-IsBounded owner now s ds w =
    checked (check_settings owner now s) (check_datasets [] ds) refl refl
  where
    checked :
        (a b : Option String)
        → check_settings owner now s ≡ a
        → check_datasets [] ds ≡ b
        → IsBounded (pos_part s.max_delete) (run_checked (first_of a b) owner now s ds w).0
    checked none none e f =
        visit_all-IsBounded (pos_part s.max_delete) now [] ds (empty_report owner now s) w f
          (record {
            within = tt;
            going = refl;
            sound = refl;
            stepping = check_settings-positive owner now s e;
            bounded = refl;
          })
    checked (some m) b e f = tt
    checked none (some m) e f = tt
