-- ===== src/Engine/Pause.antt =====
-- internal/store/store.go `Paused`: the switches of the overlay that pause everything, or one project.
use rusui.Common.{Bool, true, false, String, Result, ok, err, if◌then◌else◌, str_eq, string_append}
use rusui.Store.{Error}
use rusui.Engine.{Calls}

module _ {X : Type 0} (calls : Calls X) where
  -- The switch of one project; an empty name has none.
  unfoldable pub is_project_paused : String → X → Result Error Bool
  is_project_paused project x =
      if str_eq project ""
      then ok false
      else elim (calls.overlay_get (string_append "pause:" project) x) [
        | err e ↦ err e
        | ok v ↦ ok (str_eq v "1")
      ]

  -- `Paused`.
  unfoldable pub is_paused : String → X → Result Error Bool
  unfolding is_project_paused
  is_paused project x = elim (calls.overlay_get "pause:global" x) [
    | err e ↦ err e
    | ok v ↦ if str_eq v "1" then ok true else is_project_paused project x
  ]
