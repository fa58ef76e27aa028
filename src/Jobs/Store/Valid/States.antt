-- ===== src/Jobs/Store/Valid/States.antt =====
-- What the tests on the states of jobs exclude (for src/worker/jobs/repository.ts).
use larafeed.Prelude.{◌≡◌, refl, true, false}
use larafeed.Jobs.Types.{JobState}
use larafeed.Jobs.Store.Tables.{is_running, is_terminal, is_claimable, is_open, is_delivered}

pub running_active : (s : JobState) → is_running s ≡ true → is_terminal s ≡ false
running_active JobState.running h = refl
running_active JobState.pending h = refl
running_active JobState.queued h = refl
running_active JobState.failed h = refl
running_active JobState.succeeded h = cc
running_active JobState.dead_lettered h = cc
running_active JobState.canceled h = cc

pub claimable_idle :
    (s : JobState) → is_claimable s ≡ true → (is_running s ≡ false) × (is_terminal s ≡ false)
claimable_idle JobState.pending h = (refl, refl)
claimable_idle JobState.queued h = (refl, refl)
claimable_idle JobState.failed h = (refl, refl)
claimable_idle JobState.running h = cc
claimable_idle JobState.succeeded h = cc
claimable_idle JobState.dead_lettered h = cc
claimable_idle JobState.canceled h = cc

pub open_claimable : (s : JobState) → is_open s ≡ true → is_claimable s ≡ true
open_claimable JobState.pending h = refl
open_claimable JobState.failed h = refl
open_claimable JobState.queued h = cc
open_claimable JobState.running h = cc
open_claimable JobState.succeeded h = cc
open_claimable JobState.dead_lettered h = cc
open_claimable JobState.canceled h = cc

pub delivered_claimable : (s : JobState) → is_delivered s ≡ true → is_claimable s ≡ true
delivered_claimable JobState.queued h = refl
delivered_claimable JobState.failed h = refl
delivered_claimable JobState.pending h = cc
delivered_claimable JobState.running h = cc
delivered_claimable JobState.succeeded h = cc
delivered_claimable JobState.dead_lettered h = cc
delivered_claimable JobState.canceled h = cc
