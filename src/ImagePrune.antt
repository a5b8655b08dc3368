-- ===== src/ImagePrune.antt =====
-- packages/shared/src/rollbackImages.ts, the image cleanup: which images may be removed while some
-- are protected, and which deployment tags are stale. A `Set` is the list of its elements in the
-- order in which they were added.
pub mod Removal
mod Tests
use yeah.Base.{
  Bool, true, false, ◌&&◌, ◌||◌, not, Option, none, some, List, [], ◌∷◌, ◌++◌, map, select, Text,
  includes, if◌then◌else◌,
}

-- The fields of `DockerImageInfo` that the cleanup reads.
pub record DockerImageInfo : Type 0 where
  pub id : Text
  pub ref : Text
  pub in_use : Bool

abbrev pub ids_of : (DockerImageInfo → Bool) → List DockerImageInfo → List Text
ids_of test images = map (λ i. i.id) (select test images)

-- `ids.add(id)`
abbrev pub add_id : List Text → Text → List Text
add_id ids id = if includes ids id then ids else ids ++ id ∷ []

-- The loop, with the ids that are collected so far.
pub collect : List Text → List Text → List Text → List DockerImageInfo → List Text
collect in_use_ids protected_ids ids [] = ids
collect in_use_ids protected_ids ids (image ∷ images) =
    let skipped = collect in_use_ids protected_ids ids images in
    let added = collect in_use_ids protected_ids (add_id ids image.id) images in
    if includes in_use_ids image.id || includes protected_ids image.id then skipped else added

pub select_images_to_remove : List DockerImageInfo → List Text → List Text
select_images_to_remove images protected_refs =
    collect (ids_of (λ i. i.in_use) images) (ids_of (λ i. includes protected_refs i.ref) images) []
      images
