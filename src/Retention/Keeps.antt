-- ===== src/Retention/Keeps.antt =====
-- What the functions of the data sets keep, a retention run keeps.
use Prim.Native.Nat.{zero}
use vpn_platform.Prelude.{
  ℕ, suc, ◌+◌, ◌||◌, String, Option, none, some, List, [], ◌∷◌, Result, ok, err, All, if-elim, ltb,
}
use vpn_platform.Prelude.Int.{ℤ, pos, negsuc, ltb_ℤ}
use vpn_platform.Retention.{
  Eligibility, Dataset, Settings, Report, Outcome, Stop, batch_limit, empty_report, check_settings,
  first_of, check_datasets, after_batch, delete_loop, delete_from, after_preview, preview_of, visit,
  go_on, visit_all, run_checked, run,
}

abbrev pub delete_of :
    {W : Type 0} → Option (ℤ → ℕ → W → Result String ℤ × W) → ℤ → ℕ → W → Result String ℤ × W
delete_of none cutoff limit w = (err "nil function", w)
delete_of (some delete) cutoff limit w = delete cutoff limit w

pub record Preserves {W : Type 0} (I : W → Type 0) (d : Dataset W) : Type 0 where
  pub previewed : (cutoff : ℤ) (w : W) → I w → I (preview_of d.preview cutoff w).1
  pub deleted :
      (cutoff : ℤ) (limit : ℕ) (w : W) → I w → I (delete_of d.delete_batch cutoff limit w).1

module _ {W : Type 0} (I : W → Type 0) where
  after_batch_kept :
      (next : ℕ → W → (Stop × ℕ) × W) (deleted limit : ℕ) (r : Result String ℤ × W)
      → I r.1
      → ((n : ℕ) (w : W) → I w → I (next n w).1)
      → I (after_batch next deleted limit r).1
  unfolding after_batch
  after_batch_kept next deleted limit (err e, w) h k = h
  after_batch_kept next deleted limit (ok (negsuc n), w) h k = h
  after_batch_kept next deleted limit (ok (pos n), w) h k =
      if-elim (λ (r : (Stop × ℕ) × W). I r.1) (ltb limit n) _ _ (λ e. h)
        (λ e.
          if-elim (λ (r : (Stop × ℕ) × W). I r.1) (ltb n limit) _ _ (λ f. h)
            (λ f. k (deleted + n) w h))

  delete_loop_kept :
      (delete : ℕ → W → Result String ℤ × W) (batch max fuel deleted : ℕ) (w : W)
      → ((limit : ℕ) (w : W) → I w → I (delete limit w).1)
      → I w
      → I (delete_loop delete batch max fuel deleted w).1
  unfolding delete_loop
  delete_loop_kept delete batch max zero deleted w k h = h
  delete_loop_kept delete batch max (suc fuel) deleted w k h =
      if-elim (λ (r : (Stop × ℕ) × W). I r.1) (ltb deleted max) _ _
        (λ e.
          after_batch_kept (delete_loop delete batch max fuel) deleted
            (batch_limit batch max deleted) (delete (batch_limit batch max deleted) w)
            (k (batch_limit batch max deleted) w h)
            (λ n v. delete_loop_kept delete batch max fuel n v k))
        (λ e. h)

  delete_from_kept :
      (d : Dataset W) (cutoff : ℤ) (o : Option (ℤ → ℕ → W → Result String ℤ × W)) (e p : ℕ)
      (r : Report) (w : W)
      → ((limit : ℕ) (w : W) → I w → I (delete_of o cutoff limit w).1)
      → I w
      → I (delete_from d cutoff o e p r w).1
  unfolding delete_from
  delete_from_kept d cutoff none e p r w k h = h
  delete_from_kept d cutoff (some delete) e p r w k h =
      delete_loop_kept (delete cutoff) r.batch_size r.max_delete r.max_delete 0 w k h

  after_preview_kept :
      (d : Dataset W) (cutoff : ℤ) (r : Report) (p : Result String Eligibility × W)
      → Preserves I d
      → I p.1
      → I (after_preview d cutoff r p).1
  unfolding after_preview
  after_preview_kept d cutoff r (err e, w) k h = h
  after_preview_kept d cutoff r (ok e, w) k h =
      if-elim (λ (r : (Report × Option String) × W). I r.1)
        (ltb_ℤ e.eligible (pos 0) || ltb_ℤ e.protected (pos 0)) _ _ (λ bad. h)
        (λ good.
          if-elim (λ (r : (Report × Option String) × W). I r.1) r.dry_run _ _ (λ dry. h)
            (λ wet. delete_from_kept d cutoff d.delete_batch _ _ r w (k.deleted cutoff) h))

  go_on_kept :
      (next : Report → W → Outcome × W) (v : (Report × Option String) × W)
      → I v.1
      → ((r : Report) (w : W) → I w → I (next r w).1)
      → I (go_on next v).1
  unfolding go_on
  go_on_kept next ((r, none), w) h k = k r w h
  go_on_kept next ((r, some m), w) h k = h

  visit_all_kept :
      (now : ℕ) (ds : List (Dataset W)) (r : Report) (w : W)
      → All (Preserves I) ds
      → I w
      → I (visit_all now ds r w).1
  unfolding visit_all visit
  visit_all_kept now [] r w k h = h
  visit_all_kept now (d ∷ ds) r w k h =
      go_on_kept (visit_all now ds) _ (after_preview_kept d _ r _ k.0 (k.0.previewed _ w h))
        (λ r w h. visit_all_kept now ds r w k.1 h)

  pub run_kept :
      (owner : String) (now : ℕ) (s : Settings) (ds : List (Dataset W)) (w : W)
      → All (Preserves I) ds
      → I w
      → I (run owner now s ds w).1
  unfolding run run_checked
  run_kept owner now s ds w k h =
      checked (first_of (check_settings owner now s) (check_datasets [] ds))
    where
      checked : (o : Option String) → I (run_checked o owner now s ds w).1
      checked none = visit_all_kept now ds (empty_report owner now s) w k h
      checked (some m) = h
