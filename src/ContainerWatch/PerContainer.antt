-- ===== src/ContainerWatch/PerContainer.antt =====
-- A poll treats each container by itself.
use yeah.Base.{ℕ, Bool, ◌&&◌, Option, some, List, [], ◌∷◌, Text, equal, if◌then◌else◌}
use yeah.ContainerWatch.{
  WatchedContainer, TrackedState, TrackerOptions, ContainerStatusChange, observe_entry, is_watched,
  effective_container_state, cons_some,
}

module _ (options : TrackerOptions) (t : ℕ) (name : Text) (ignore : List Text) where
  abbrev mine : WatchedContainer → Bool
  mine c = is_watched options t ignore c && equal c.name name

  -- The rows of one container, one after the other, with its entry alone.
  abbrev pub observe_one :
      Option TrackedState → List WatchedContainer → Option TrackedState × List ContainerStatusChange
  observe_one o [] = (o, [])
  observe_one o (c ∷ rows) =
      let seen = observe_entry options t name o (effective_container_state c) in
      let entered = observe_one (some seen.0) rows in
      let passed = observe_one o rows in
      if mine c then (entered.0, cons_some seen.1 entered.1) else passed

  abbrev pub about : ContainerStatusChange → Bool
  about change = equal change.name name
