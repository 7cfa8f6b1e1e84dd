-- ===== src/VzClient/Creations.antt =====
-- CreateVirtualizationGroup of pkg/client/vz.go, with pkg/vm/validator.go and
-- internal/utils/resource_extractor.go. A request of a pod is what AsInt64 gives, `none` where it
-- does not fit, as its 64-bit pattern: the conversions to uint and uint64 keep that.
pub mod Laws
use mac_os_vz_kubelet.Common.{
  ℕ, String, ◌<>◌, Bool, true, false, not, ◌&&◌, Option, none, some, List, [], ◌∷◌, ◌++◌, map,
  GoError, text, invalid_input, error_text, ltb, if◌then◌else◌, ◌⊎◌, inl, inr, NamespacedName,
  namespaced_name_comparable,
}
use mac_os_vz_kubelet.VzClient.Deletions.{Extras, new_extras, ExtrasMap}

-- The limits of Virtualization.framework.
pub record Limits : Type 0 where
  pub max_cpu_count : ℕ
  pub min_cpu_count : ℕ
  pub max_memory_size : ℕ
  pub min_memory_size : ℕ

pub record ContainerRequest : Type 0 where
  pub name : String
  pub image : String

-- What the validation reads of a pod: its first container with its requests, and the others.
pub record PodRequest : Type 0 where
  pub key : NamespacedName
  pub macos_container : ContainerRequest
  pub cpu : Option ℕ
  pub memory : Option ℕ
  pub sidecars : List ContainerRequest

-- The goroutines of the group, in the order in which they start, and the deferred cleanup.
pub data GroupEffect : Type 0 where
  create_vm create_container : ContainerRequest → GroupEffect
  remove_root : String → GroupEffect
  cancel_context : GroupEffect

unfoldable pub extract_cpu_request : Option ℕ → GoError ⊎ ℕ
extract_cpu_request none = inl (text "failed to parse CPU request")
extract_cpu_request (some n) = inr n

unfoldable pub extract_memory_request : Option ℕ → GoError ⊎ ℕ
extract_memory_request none = inl (text "failed to parse memory request")
extract_memory_request (some n) = inr n

-- An extraction with the validation of its value.
unfoldable pub check_request : (ℕ → ℕ × Option GoError) → GoError ⊎ ℕ → Option GoError
check_request validate (inl e) = some (invalid_input e)
check_request validate (inr n) = elim (validate n).1 [
  | none ↦ none
  | some e ↦ some (invalid_input e)
]

abbrev pub first_error : List (Option GoError) → Option GoError
first_error [] = none
first_error (none ∷ es) = first_error es
first_error (some e ∷ es) = some e

abbrev pub check_sidecars : Bool → List ContainerRequest → Option GoError
check_sidecars has_client [] = none
check_sidecars has_client (_ ∷ _) =
    if has_client then none else some (invalid_input (text "regular containers are not supported"))

-- `quoted` is the verb %q of fmt, and `parse_reference` NewRepository of oras.
module _ (quoted : String → String) (parse_reference : String → Option GoError) where
  unfoldable pub check_image : String → Option GoError
  check_image image = elim (parse_reference image) [
    | none ↦ none
    | some e ↦
        some (
          invalid_input (text ("invalid image reference " <> quoted image <> ": " <> error_text e)))
  ]

-- `decimal` is the verb %d of fmt.
module _ (decimal : ℕ → String) (limits : Limits) where
  unfoldable pub validate_cpu_count : ℕ → ℕ × Option GoError
  validate_cpu_count n =
      if ltb limits.max_cpu_count n
      then (
        limits.max_cpu_count,
        some (
            text (
              "cpu count "
              <> decimal n
              <> " is greater than the maximum allowed cpu count "
              <> decimal limits.max_cpu_count)),
      )
      else if ltb n limits.min_cpu_count
      then (
        limits.min_cpu_count,
        some (
            text (
              "cpu count "
              <> decimal n
              <> " is less than the minimum allowed cpu count "
              <> decimal limits.min_cpu_count)),
      )
      else (n, none)

  unfoldable pub validate_memory_size : ℕ → ℕ × Option GoError
  validate_memory_size n =
      if ltb limits.max_memory_size n
      then (
        limits.max_memory_size,
        some (
            text (
              "memory size "
              <> decimal n
              <> " is greater than the maximum allowed memory size "
              <> decimal limits.max_memory_size)),
      )
      else if ltb n limits.min_memory_size
      then (
        limits.min_memory_size,
        some (
            text (
              "memory size "
              <> decimal n
              <> " is less than the minimum allowed memory size "
              <> decimal limits.min_memory_size)),
      )
      else (n, none)

  module _ (quoted : String → String) (parse_reference : String → Option GoError) where
    -- Everything before the extras are stored.
    unfoldable pub check_pod : Bool → PodRequest → Option GoError
    unfolding check_request extract_cpu_request extract_memory_request check_image
    check_pod has_client pod = first_error (
        check_sidecars has_client pod.sidecars
        ∷ check_request validate_cpu_count (extract_cpu_request pod.cpu)
        ∷ check_request validate_memory_size (extract_memory_request pod.memory)
        ∷ check_image quoted parse_reference pod.macos_container.image
        ∷ [])

    module _ (m : ExtrasMap) where
      -- The code from the Store on, with what the goroutines return to Wait.
      unfoldable pub start_group :
          PodRequest → String → Option GoError → m.Map → Option GoError × List GroupEffect × m.Map
      start_group pod root wait d =
          let stored = m.store pod.key (record (new_extras root) { has_cancel = true }) d in
          let calls = create_vm pod.macos_container ∷ map create_container pod.sidecars in
          elim wait [
            | none ↦ (none, calls, stored)
            | some e ↦
                (some e, calls ++ (remove_root root ∷ cancel_context ∷ []), m.delete pod.key stored)
          ]

      unfoldable pub create_virtualization_group :
          Bool
          → PodRequest
          → String
          → Option GoError
          → m.Map
          → Option GoError × List GroupEffect × m.Map
      unfolding check_pod start_group
      create_virtualization_group has_client pod root wait d = elim (check_pod has_client pod) [
        | some e ↦ (some e, remove_root root ∷ [], m.delete pod.key d)
        | none ↦ start_group pod root wait d
      ]
