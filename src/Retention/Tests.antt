-- ===== src/Retention/Tests.antt =====
-- The theorems at a concrete run: a table of five old rows, deleted two at a time.
use vpn_platform.Prelude.{
  ℕ, ◌-◌, ◌≡◌, refl, Bool, true, false, some, List, [], ◌∷◌, ok, ltb, if◌then◌else◌, map,
}
use vpn_platform.Prelude.Int.{pos}
use vpn_platform.Prelude.Text.{in_range, is_lower, is_digit, all_chars}
use vpn_platform.Prelude.{exists}
use vpn_platform.Retention.{
  Dataset, DatasetReport, Settings, Outcome, completed, valid_name, valid_dataset, check_datasets,
  after_batch, delete_loop, delete_from, after_preview, preview_of, visit, go_on, visit_all,
  check_settings, run_checked, run,
}
use vpn_platform.Retention.Bounds.{IsBounded, run-IsBounded}
use vpn_platform.Retention.Dry.{run-dry}

-- The world is the number of old rows.
abbrev rows : Dataset ℕ
rows = record {
  name = "old_rows";
  keep_for = pos 5;
  preview = some (λ cutoff n. (ok (record { eligible = pos n; protected = pos 0 }), n));
  delete_batch =
      some (λ cutoff limit n. if ltb n limit then (ok (pos n), 0) else (ok (pos limit), n - limit));
}

abbrev settings : Bool → Settings
settings dry = record { dry_run = dry; batch_size = pos 2; max_delete = pos 10 }

abbrev reports : Outcome → List DatasetReport
reports (completed r) = r.datasets
reports _ = []

-- Two full batches and a short one.
deletes_all :
    (map
        (λ (i : DatasetReport). i.deleted)
        (reports (run "owner" 9 (settings false) (rows ∷ []) 5).0)
      ≡ 5 ∷ [])
    × ((run "owner" 9 (settings false) (rows ∷ []) 5).1 ≡ 0)
unfolding run run_checked check_settings visit_all go_on visit preview_of after_preview delete_from
    delete_loop after_batch check_datasets valid_dataset valid_name in_range is_lower is_digit
    all_chars exists
deletes_all = (refl, refl)

run-IsBounded_example : IsBounded 10 (run "owner" 9 (settings false) (rows ∷ []) 5).0
run-IsBounded_example = run-IsBounded "owner" 9 (settings false) (rows ∷ []) 5

run-dry_example : (run "owner" 9 (settings true) (rows ∷ []) 5).1 ≡ 5
unfolding preview_of
run-dry_example = run-dry "owner" 9 (settings true) (rows ∷ []) 5 refl ((λ cutoff w. refl), tt)
