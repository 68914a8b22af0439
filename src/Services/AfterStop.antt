-- ===== src/Services/AfterStop.antt =====
-- `AfterStop::merge` of beam-init/src/services.rs: what happens to a service that is stopping when
-- more requests come in.
use beam_init.Base.{◌≡◌, refl, Bool, true, false, ◌||◌, List, [], ◌∷◌, if◌then◌else◌}
use beam_init.Services.Types.{AfterStop, stop, prune, restart, user, automatic}
use beam_init.Services.Service.{merge, is_prune}

-- The requests that come in while the service stops, one after another.
unfoldable pub merge_all : AfterStop → List AfterStop → AfterStop
merge_all current [] = current
merge_all current (requested ∷ rest) = merge_all (merge current requested) rest

-- Whether a request is for a removal, over some requests.
unfoldable pub any_prune : List AfterStop → Bool
any_prune [] = false
any_prune (requested ∷ rest) = is_prune requested || any_prune rest

abbrev pub is_automatic : AfterStop → Bool
is_automatic (restart automatic) = true
is_automatic _ = false

-- The last request that is not an automatic restart, or `current` if there is none.
unfoldable pub last_deliberate : AfterStop → List AfterStop → AfterStop
last_deliberate current [] = current
last_deliberate current (requested ∷ rest) =
    last_deliberate (if is_automatic requested then current else requested) rest

merge_all-prune : (requests : List AfterStop) → merge_all prune requests ≡ prune
unfolding merge_all merge
merge_all-prune [] = refl
merge_all-prune (requested ∷ rest) = merge_all-prune rest

-- A service that is stopping is removed at the end if it was to be, or if any request since was
-- for its removal; else the last request counts that was not an automatic restart, and if there is
-- none, what was decided before.
pub merge_all_lem :
    (current : AfterStop) (requests : List AfterStop)
    → merge_all current requests
      ≡ (if is_prune current || any_prune requests then prune else last_deliberate current requests)
unfolding merge_all merge any_prune last_deliberate is_prune
merge_all_lem prune requests = merge_all-prune requests
merge_all_lem stop [] = refl
merge_all_lem (restart reason) [] = refl
merge_all_lem stop (stop ∷ rest) = merge_all_lem stop rest
merge_all_lem stop (prune ∷ rest) = merge_all-prune rest
merge_all_lem stop (restart user ∷ rest) = merge_all_lem (restart user) rest
merge_all_lem stop (restart automatic ∷ rest) = merge_all_lem stop rest
merge_all_lem (restart reason) (stop ∷ rest) = merge_all_lem stop rest
merge_all_lem (restart reason) (prune ∷ rest) = merge_all-prune rest
merge_all_lem (restart reason) (restart user ∷ rest) = merge_all_lem (restart user) rest
merge_all_lem (restart reason) (restart automatic ∷ rest) = merge_all_lem (restart reason) rest
