-- ===== src/Jobs/Store/Failure/Daily.antt =====
-- The daily counts of refreshes (`dailyRefreshAggregate` of src/worker/jobs/repository.ts).
use mathlib.Core.List.{Memᴰ}
use larafeed.Prelude.{
  ◌≡◌, ◌+◌, sym, subst, inl, inr, Bool, true, false, not, Option, none, some, List, ◌∷◌,
  if◌then◌else◌, arith,
}
use larafeed.Effect.{Try, returned, threw}
use larafeed.Jobs.Errors.{lease_lost_error, storage_error}
use larafeed.Jobs.Types.{FailureInput, FailureRecord}
use larafeed.Jobs.Store.Tables.{JobRow, RefreshRow, DailyRow, Db}
use larafeed.Jobs.Store.Sql.{update_where, exists_where}
use larafeed.Jobs.Store.Sql.Rows.{update_where-Changed}
use larafeed.Jobs.Store.Valid.Updates.{either_result}
use larafeed.Jobs.Store.Failure.{
  is_day, new_day, add_to_day, count_day, put_refresh, failed_refresh, bury, with_failure,
  record_refresh_failure, is_final, is_recorded, held_job, refresh_conflict, failure_record, one_if,
}

-- Each attempt of a day is a success or a failure.
abbrev pub AddsUp : DailyRow → Type 0
AddsUp d = d.attempts_count ≡ d.successes_count + d.failures_count

abbrev pub AllAddUp : List DailyRow → Type 0
AllAddUp daily = (d : DailyRow) → Memᴰ d daily → AddsUp d

one_or_other : (b : Bool) → one_if b + one_if (not b) ≡ 1
one_or_other true = omega arith
one_or_other false = omega arith

new_day-AddsUp : (row : RefreshRow) → AddsUp (new_day row)
new_day-AddsUp row = sym (one_or_other row.was_successful)

add_to_day-AddsUp : (row : RefreshRow) (d : DailyRow) → AddsUp d → AddsUp (add_to_day row d)
add_to_day-AddsUp row d h = let e = one_or_other row.was_successful in omega arith

added-AddsUp :
    (row : RefreshRow) (daily : List DailyRow)
    → AllAddUp daily
    → AllAddUp (update_where (is_day row) (add_to_day row) daily)
added-AddsUp row daily h d m =
    let (r, n, c) = update_where-Changed (is_day row) (add_to_day row) daily d m in
    elim c [
      | inl (t, e) ↦ subst AddsUp (sym e) (add_to_day-AddsUp row r (h r n))
      | inr (t, e) ↦ subst AddsUp (sym e) (h r n)
    ]

begun-AddsUp :
    (row : RefreshRow) (daily : List DailyRow) → AllAddUp daily → AllAddUp (new_day row ∷ daily)
begun-AddsUp row daily h d (Memᴰ.head e) = subst AddsUp (sym e) (new_day-AddsUp row)
begun-AddsUp row daily h d (Memᴰ.tail m) = h d m

either_list :
    (b : Bool) (x y : List DailyRow) → AllAddUp x → AllAddUp y → AllAddUp (if b then x else y)
either_list true x y h k = h
either_list false x y h k = k

count_day-AddsUp :
    (row : RefreshRow) (daily : List DailyRow) → AllAddUp daily → AllAddUp (count_day row daily)
unfolding count_day
count_day-AddsUp row daily h =
    either_list (exists_where (is_day row) daily) _ _ (added-AddsUp row daily h)
      (begun-AddsUp row daily h)

put_refresh-AddsUp :
    (input : FailureInput) (found : Option JobRow) (db : Db)
    → AllAddUp db.daily
    → AllAddUp (put_refresh input found db).daily
unfolding put_refresh
put_refresh-AddsUp input none db h = h
put_refresh-AddsUp input (some j) db h = count_day-AddsUp (failed_refresh input j) db.daily h

either_daily :
    (b : Bool) (x y : Db)
    → AllAddUp x.daily
    → AllAddUp y.daily
    → AllAddUp (if b then x else y).daily
either_daily true x y h k = h
either_daily false x y h k = k

with_failure-AddsUp :
    (input : FailureInput) (db : Db) → AllAddUp db.daily → AllAddUp (with_failure input db).daily
unfolding with_failure bury
with_failure-AddsUp input db h =
    either_daily (is_final input) _ _ (put_refresh-AddsUp input _ _ h) h

-- The record of a failure, whether it returns or throws, keeps the counts of all days in order: where
-- each day had as many attempts as successes and failures together, each day has after it.
pub record_refresh_failure-AddsUp :
    (input : FailureInput) (db : Db)
    → AllAddUp db.daily
    → AllAddUp (record_refresh_failure input db).1.daily
unfolding record_refresh_failure
record_refresh_failure-AddsUp input db h =
    let recorded = with_failure-AddsUp input db h in
    let failed : Try FailureRecord × Db = (threw (storage_error "recordRefreshFailure"), db) in
    let lost : Try FailureRecord × Db =
      (threw (lease_lost_error input.claim.operation_id), with_failure input db) in
    let done : Try FailureRecord × Db = (returned (failure_record input), with_failure input db) in
    let Good : Db → Type 0 = λ d. AllAddUp d.daily in
    either_result Good (refresh_conflict input (held_job input db) db) failed
      (if is_recorded input db then done else lost) h
      (either_result Good (is_recorded input db) done lost recorded recorded)
