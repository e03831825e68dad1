-- ===== src/Chips/View.antt =====
-- What the chips, the release versions, the warnings and the locks of environments render:
-- chip/EnvironmentGroupChip.tsx, ReleaseVersion/ReleaseVersion.tsx, ServiceLane/Warnings.tsx,
-- EnvironmentLockDisplay/EnvironmentLockDisplay.tsx and tooltip/tooltip.tsx.
use kuberpult.Prelude.{
  ℕ, String, Bool, false, none, some, List, [], ◌∷◌, ◌++◌, ◌==◌, if◌then◌else◌, concat, opt_truthy,
  get_or, map, length, not, is_some, eqb,
}
use kuberpult.Api.{FrontendConfig, EnvironmentGroup, Lock, Release, Application, Warning, unset}
use kuberpult.Store.Locks.{DisplayLock, environment_lock, environments, values}
use kuberpult.Store.Overview.{Result, throws, returns}
use kuberpult.View.{Html, text_node, button, link, children, div, span, bold, titled, Runtime}
use kuberpult.View.Results.{map_result, each}
use kuberpult.Links.View.{argo_app_env_link_view, source_link_view, manifest_link_view}
use kuberpult.Store.Cart.{Cart}
use kuberpult.EnvironmentCard.{author, kind, delete_environment_lock_by_id}
use kuberpult.Chips.{
  ChipProps, numbers, number_string, chip_name, release_version, warning_box, group_chips,
}

module _ {E : Type 0} (rt : Runtime) (config : FrontendConfig) where
  -- `Tooltip`, with what it shows beside its anchor.
  unfoldable pub tooltip : (content : Html E) → Html E → Html E
  tooltip content anchor = div (link "" "#" (children (anchor ∷ [])) ∷ div (content ∷ []) ∷ [])

  -- `ReleaseVersion`
  unfoldable pub release_version_view : Release → Html E
  release_version_view r =
      let text = text_node (release_version rt.number_text rt.commit_prefix r) in
      if r.undeploy_version
      then titled "span" "Remove" (text ∷ [])
      else if not (r.display_version == "")
      then titled "span" r.source_commit_id (text ∷ [])
      else if not (r.source_commit_id == "")
      then titled "span" r.source_commit_id (text ∷ [])
      else span (text ∷ [])

  -- `ReleaseVersionWithLinks`
  unfoldable pub release_version_with_links : (application : String) → Release → Html E
  release_version_with_links application r = div (
      div (release_version_view r ∷ text_node " " ∷ [])
      ∷ div (
          source_link_view rt config "Source" r.source_commit_id
          ++ text_node " " ∷ manifest_link_view rt config "Manifest" application r.version)
      ∷ [])

  -- `WarningBox`
  unfoldable pub warning_box_view : Warning → Html E
  warning_box_view unset = div (text_node "Could not render Warning" ∷ [])
  warning_box_view w = titled "div" ((warning_box w).1) (text_node ((warning_box w).0) ∷ [])

  -- `WarningBoxes`
  unfoldable pub warning_boxes : Application → Html E
  warning_boxes application =
      div (map (λ (w : Warning). div (warning_box_view w ∷ [])) application.warnings)

  -- `DisplayLockRenderer`
  unfoldable pub display_lock_renderer : DisplayLock → Html E
  display_lock_renderer lock = div (
      div (text_node (kind lock) ∷ text_node " locked by " ∷ text_node (author lock) ∷ [])
      ∷ div (text_node "with Message: " ∷ bold lock.message ∷ [])
      ∷ div (text_node "ID: " ∷ text_node lock.lock_id ∷ [])
      ∷ div (text_node "Click to unlock." ∷ [])
      ∷ [])

  -- `DisplayLockInlineRenderer`
  unfoldable pub display_lock_inline_renderer : DisplayLock → Html E
  display_lock_inline_renderer lock = titled "span" lock.lock_id (
      (if opt_truthy lock.application
        then span (
            text_node "Application "
            ∷ bold (get_or lock.application "")
            ∷ text_node " locked by "
            ∷ bold (author lock)
            ∷ text_node " on environment "
            ∷ bold lock.environment
            ∷ [])
        else span (
            text_node "Environment "
            ∷ bold lock.environment
            ∷ text_node " locked by "
            ∷ bold (author lock)
            ∷ []))
      ∷ span (
          text_node " with message: "
          ∷ bold (concat ("'" ∷ lock.message ∷ "'" ∷ []))
          ∷ text_node " "
          ∷ [])
      ∷ [])

  module _ (plans : (Cart → Cart) → E) (groups : List EnvironmentGroup) where
    -- `EnvironmentLockDisplay`, for a lock that is found
    unfoldable pub lock_button : (env lock_id : String) → DisplayLock → Html E
    lock_button env lock_id lock =
        tooltip (display_lock_renderer lock)
          (div (button "" false (some (plans (delete_environment_lock_by_id env lock_id))) ∷ []))

    -- `EnvironmentLockDisplay`, which looks the lock up.
    unfoldable pub environment_lock_display : (env lock_id : String) → Result (Html E)
    environment_lock_display env lock_id = elim (environment_lock lock_id (environments groups)) [
      | none ↦ throws (concat ("env lock with id not found: " ∷ lock_id ∷ []))
      | some lock ↦ returns (lock_button env lock_id lock)
    ]

    -- `EnvironmentChip`
    unfoldable pub environment_chip : (app : String) (small : Bool) → ChipProps → Result (Html E)
    environment_chip app small c = elim c.env [
      | none ↦ throws (
          if opt_truthy c.group_name_override
          then "Cannot read properties of undefined (reading 'locks')"
          else "Cannot read properties of undefined (reading 'name')")
      | some env ↦
          let name = chip_name c.group_name_override env in
          let number = text_node (
            number_string rt.number_text (numbers c.number_envs_deployed c.number_envs_in_group)) in
          let shown = λ (title : Html E) (locks : List (Html E)).
            div (span (span (title ∷ []) ∷ text_node " " ∷ span (number ∷ []) ∷ locks) ∷ []) in
          if small
          then (if name == ""
              then throws "Cannot read properties of undefined (reading 'toUpperCase')"
              else returns (
                  shown (text_node (rt.first_upper name))
                    (if eqb (length env.locks) 0 then [] else div [] ∷ [])))
          else map_result
              (λ displays. shown (argo_app_env_link_view rt config app name) (div displays ∷ []))
              (each (λ (lock : Lock). environment_lock_display env.name lock.lock_id)
                (values env.locks))
    ]

    -- What `EnvironmentGroupChip` renders with these properties: a group has a `div` of its own.
    unfoldable pub environment_group_chip_view :
        (app : String) (small : Bool) → ChipProps → Result (Html E)
    environment_group_chip_view app small c =
        map_result (λ chip. if is_some c.group_name_override then div (chip ∷ []) else chip)
          (environment_chip app small c)

    -- `EnvironmentGroupChipList`
    unfoldable pub environment_group_chip_list :
        (app : String) (version : ℕ) (small : Bool) → Result (Html E)
    environment_group_chip_list app version small =
        map_result (λ chips. div (text_node " " ∷ chips ++ text_node " " ∷ []))
          (each (environment_group_chip_view app small) (group_chips app version groups))
