-- ===== src/Retention.antt =====
-- internal/platform/retention/retention.go: the bounded deletion of old rows, one data set after
-- another. What a data set answers, and does to the world outside, is a parameter.
pub mod Bounds
pub mod Dry
pub mod Keeps
mod Tests
use Prim.Native.Nat.{zero}
use vpn_platform.Prelude.{
  ℕ, suc, ◌+◌, ◌-◌, Bool, true, false, not, ◌&&◌, ◌||◌, String, Option, none, some, List, [], ◌∷◌,
  ◌++◌, leb, ltb, eqb, ◌==◌, if◌then◌else◌, exists, Result, ok, err, length,
}
use vpn_platform.Prelude.Int.{ℤ, pos, negsuc, ltb_ℤ, pos_part, ◌+ℤ◌}
use vpn_platform.Prelude.Text.{codes, is_lower, is_digit, all_chars}

pub record Eligibility : Type 0 where
  pub eligible : ℤ
  pub protected : ℤ

-- A data set, whose functions act on a world `W` and may fail with a message; a function may be nil.
pub record Dataset (W : Type 0) : Type 0 where
  pub name : String
  pub keep_for : ℤ
  pub preview : Option (ℤ → W → Result String Eligibility × W)
  pub delete_batch : Option (ℤ → ℕ → W → Result String ℤ × W)

pub record DatasetReport : Type 0 where
  pub dataset : String
  pub cutoff : ℤ
  pub eligible : ℕ
  pub protected : ℕ
  pub deleted : ℕ
  pub remaining_estimate : ℕ

pub record FailureReport : Type 0 where
  pub dataset : String
  pub stage : String

pub record Settings : Type 0 where
  pub dry_run : Bool
  pub batch_size : ℤ
  pub max_delete : ℤ

pub record Report : Type 0 where
  pub owner : String
  pub dry_run : Bool
  pub status : String
  pub generated_at : ℕ
  pub batch_size : ℕ
  pub max_delete : ℕ
  pub datasets : List DatasetReport
  pub failure : Option FailureReport

-- What `Run` returns: no report, a report, or a report with an error.
pub data Outcome : Type 0 where
  refused : String → Outcome
  completed : Report → Outcome
  failed : Report → String → Outcome

abbrev name_char : ℕ → Bool
name_char c = is_lower c || (is_digit c || eqb c b'_')

abbrev name_codes : List ℕ → Bool
name_codes [] = false
name_codes (c ∷ cs) =
    is_lower c && (all_chars name_char cs && (leb 2 (length cs) && leb (length cs) 63))

-- `datasetNamePattern`, `^[a-z][a-z0-9_]{2,63}$`.
unfoldable pub valid_name : String → Bool
valid_name s = name_codes (codes s)

abbrev pub is_set : {A : Type 0} → Option A → Bool
is_set none = false
is_set (some a) = true

abbrev negated : ℤ → ℤ
negated (pos zero) = pos 0
negated (pos (suc n)) = negsuc n
negated (negsuc n) = pos (suc n)

-- How the loop of deletions ends.
pub data Stop : Type 0 where
  done delete_failed exceeded out_of_fuel : Stop

-- `min(settings.BatchSize, settings.MaxDelete-int(item.Deleted))`.
abbrev pub batch_limit : ℕ → ℕ → ℕ → ℕ
batch_limit batch max deleted = if ltb (max - deleted) batch then max - deleted else batch

abbrev pub add_item : DatasetReport → Report → Report
add_item item r = record r { datasets = r.datasets ++ item ∷ [] }

abbrev pub failed_at : String → String → Report → Report
failed_at dataset stage r = record r {
  status = "failed";
  failure = some (record { dataset = dataset; stage = stage });
}

abbrev pub empty_report : String → ℕ → Settings → Report
empty_report owner now s = record {
  owner = owner;
  dry_run = s.dry_run;
  status = "completed";
  generated_at = now;
  batch_size = pos_part s.batch_size;
  max_delete = pos_part s.max_delete;
  datasets = [];
  failure = none;
}

-- The checks on the settings; `time.Time.IsZero` is the instant 0.
unfoldable pub check_settings : String → ℕ → Settings → Option String
check_settings owner now s =
    if not (valid_name owner)
    then some "retention owner is invalid"
    else if eqb now 0
    then some "retention time is required"
    else if ltb_ℤ s.batch_size (pos 1) || ltb_ℤ (pos 1000) s.batch_size
    then some "retention batch size must be between 1 and 1000"
    else if ltb_ℤ s.max_delete s.batch_size || ltb_ℤ (pos 100000) s.max_delete
    then some "retention max delete must be between batch size and 100000"
    else none

abbrev pub first_of : Option String → Option String → Option String
first_of none b = b
first_of (some a) b = some a

module _ {W : Type 0} where
  unfoldable pub valid_dataset : Dataset W → Bool
  valid_dataset d =
      valid_name d.name && (ltb_ℤ (pos 0) d.keep_for && (is_set d.preview && is_set d.delete_batch))

  -- The check of all data sets, with the names that were seen.
  unfoldable pub check_datasets : List String → List (Dataset W) → Option String
  check_datasets seen [] = none
  check_datasets seen (d ∷ ds) =
      let rest = check_datasets (d.name ∷ seen) ds in
      if not (valid_dataset d)
      then some "retention dataset is invalid"
      else if exists (λ n. n == d.name) seen
      then some "retention dataset is duplicated"
      else rest

  -- What follows one batch: the end of the loop, or `next` with the rows deleted so far.
  unfoldable pub after_batch :
      (ℕ → W → (Stop × ℕ) × W) → (deleted limit : ℕ) → Result String ℤ × W → (Stop × ℕ) × W
  after_batch next deleted limit (err e, w) = ((delete_failed, deleted), w)
  after_batch next deleted limit (ok (negsuc n), w) = ((exceeded, deleted), w)
  after_batch next deleted limit (ok (pos n), w) =
      if ltb limit n
      then ((exceeded, deleted), w)
      else if ltb n limit
      then ((done, deleted + n), w)
      else next (deleted + n) w

  -- `for item.Deleted < int64(settings.MaxDelete)`: each full batch deletes at least one row, so that
  -- the bound on deletions is fuel enough.
  unfoldable pub delete_loop :
      (ℕ → W → Result String ℤ × W) → (batch max fuel deleted : ℕ) → W → (Stop × ℕ) × W
  delete_loop delete batch max zero deleted w =
      ((if ltb deleted max then out_of_fuel else done, deleted), w)
  delete_loop delete batch max (suc fuel) deleted w =
      let more =
        after_batch (delete_loop delete batch max fuel) deleted (batch_limit batch max deleted)
          (delete (batch_limit batch max deleted) w) in
      if ltb deleted max then more else ((done, deleted), w)

  -- `max(eligibility.Eligible-item.Deleted, 0)` is the subtraction on ℕ.
  abbrev pub item_of : Dataset W → ℤ → ℕ → ℕ → ℕ → DatasetReport
  item_of d cutoff eligible protected deleted = record {
    dataset = d.name;
    cutoff = cutoff;
    eligible = eligible;
    protected = protected;
    deleted = deleted;
    remaining_estimate = eligible - deleted;
  }

  -- What one data set adds to the report: the report so far and, if it failed, the message.
  abbrev pub after_deletions : Dataset W → DatasetReport → Report → Stop → Report × Option String
  after_deletions d item r done = (add_item item r, none)
  after_deletions d item r delete_failed =
      (failed_at d.name "delete" (add_item item r), some "delete retention dataset")
  after_deletions d item r exceeded = (
    failed_at d.name "delete_result" (add_item item r),
    some "retention dataset exceeded its deletion bound",
  )
  after_deletions d item r out_of_fuel = (r, some "out of fuel")

  unfoldable pub delete_from :
      Dataset W
      → ℤ
      → Option (ℤ → ℕ → W → Result String ℤ × W)
      → ℕ
      → ℕ
      → Report
      → W
      → (Report × Option String) × W
  delete_from d cutoff none eligible protected r w = ((r, some "nil function"), w)
  delete_from d cutoff (some delete) eligible protected r w =
      let ((stop, deleted), after) =
        delete_loop (delete cutoff) r.batch_size r.max_delete r.max_delete 0 w in
      (after_deletions d (item_of d cutoff eligible protected deleted) r stop, after)

  unfoldable pub after_preview :
      Dataset W → ℤ → Report → Result String Eligibility × W → (Report × Option String) × W
  after_preview d cutoff r (err e, w) =
      ((failed_at d.name "preview" r, some "preview retention dataset"), w)
  after_preview d cutoff r (ok e, w) =
      if ltb_ℤ e.eligible (pos 0) || ltb_ℤ e.protected (pos 0)
      then (
        (failed_at d.name "preview_result" r, some "retention dataset returned invalid counts"),
        w,
      )
      else if r.dry_run
      then ((add_item (item_of d cutoff (pos_part e.eligible) (pos_part e.protected) 0) r, none), w)
      else delete_from d cutoff d.delete_batch (pos_part e.eligible) (pos_part e.protected) r w

  unfoldable pub preview_of :
      Option (ℤ → W → Result String Eligibility × W) → ℤ → W → Result String Eligibility × W
  preview_of none cutoff w = (err "nil function", w)
  preview_of (some preview) cutoff w = preview cutoff w

  unfoldable pub visit : ℕ → Dataset W → Report → W → (Report × Option String) × W
  visit now d r w =
      let cutoff = pos now +ℤ negated d.keep_for in
      after_preview d cutoff r (preview_of d.preview cutoff w)

  unfoldable pub go_on : (Report → W → Outcome × W) → (Report × Option String) × W → Outcome × W
  go_on next ((r, none), w) = next r w
  go_on next ((r, some message), w) = (failed r message, w)

  unfoldable pub visit_all : ℕ → List (Dataset W) → Report → W → Outcome × W
  visit_all now [] r w = (completed r, w)
  visit_all now (d ∷ ds) r w = go_on (visit_all now ds) (visit now d r w)

  unfoldable pub run_checked :
      Option String → String → ℕ → Settings → List (Dataset W) → W → Outcome × W
  run_checked (some message) owner now s ds w = (refused message, w)
  run_checked none owner now s ds w = visit_all now ds (empty_report owner now s) w

  unfoldable pub run : String → ℕ → Settings → List (Dataset W) → W → Outcome × W
  run owner now s ds w =
      run_checked (first_of (check_settings owner now s) (check_datasets [] ds)) owner now s ds w
