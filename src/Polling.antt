-- ===== src/Polling.antt =====
-- Noticing other members' edits: frontend/src/hooks/useTripChanges.ts.
-- The state of the hook, and the two sections of `poll` before and behind its await. `A` are
-- activities, and the versions are those that the API client remembers.
use travel_planner.Base.{
  ℕ, Bool, true, false, not, ◌&&◌, Option, none, some, List, Code, if◌then◌else◌, ◌otherwise◌,
}
use travel_planner.Api.Paths.{get_version}
pub mod Tab
pub mod Notice

pub record Changes (A : Type 0) : Type 0 where
  pub version : ℕ
  pub changed : Bool
  pub activity : List A

-- The effect polls trips that have members, once their version is known.
unfoldable pub base_of : (shared : Bool) → (base_version : Option ℕ) → Option ℕ
base_of shared base_version = if shared then base_version else none

-- What the poll asks for, if it is sent.
unfoldable pub poll_begun : (visible online : Bool) → Code → (base : ℕ) → List (Code × ℕ) → Option ℕ
poll_begun visible online id base versions =
    if visible && online then some (get_version id versions otherwise base) else none

-- `none` is a poll that fails.
unfoldable pub poll_settled :
    {A : Type 0} → (stopped : Bool) → Option (Changes A) → Option (Changes A) → Option (Changes A)
poll_settled stopped none shown = shown
poll_settled stopped (some result) shown =
    if not stopped && result.changed then some result else shown
