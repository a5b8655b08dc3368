-- ===== src/ImagePrune/Removal.antt =====
-- What the cleanup removes: exactly the images of which no tag is in use or protected.
use yeah.Base.{
  Bool, true, false, ◌&&◌, ◌||◌, not, List, [], ◌∷◌, ◌++◌, any, Text, equal, equal_iff, includes,
  ◌≡◌, refl, sym, subst, Bool-cases, inl, inr, ◌⊎◌, ◌∙◌, arith,
}
use yeah.ImagePrune.{DockerImageInfo, ids_of, add_id, collect, select_images_to_remove}

-- Some image of the list has the id and passes the test.
abbrev pub has_id : (DockerImageInfo → Bool) → Text → List DockerImageInfo → Bool
has_id test id images = any (λ i. equal i.id id && test i) images

includes-ids_of :
    (test : DockerImageInfo → Bool) (images : List DockerImageInfo) (id : Text)
    → includes (ids_of test images) id ≡ has_id test id images
includes-ids_of test [] id = refl
includes-ids_of test (i ∷ images) id = elim (Bool-cases (test i)) [
  | inl kept ↦ (let rest = includes-ids_of test images id in rw (kept) (ground arith))
  | inr dropped ↦ (let rest = includes-ids_of test images id in rw (dropped) (ground arith))
]

includes-append :
    (ids more : List Text) (id : Text)
    → includes (ids ++ more) id ≡ includes ids id || includes more id
includes-append [] more id = refl
includes-append (i ∷ ids) more id = (let rest = includes-append ids more id in ground arith)

includes-add_id :
    (ids : List Text) (new id : Text)
    → includes (add_id ids new) id ≡ includes ids id || equal new id
includes-add_id ids new id = elim (Bool-cases (includes ids new)) [
  | inl there ↦ rw there (sym (absorbed (Bool-cases (equal new id)) there))
  | inr absent ↦ rw absent (let rest = includes-append ids (new ∷ []) id in ground arith)
]
  where
    absorbed :
        (equal new id ≡ true) ⊎ (equal new id ≡ false)
        → includes ids new ≡ true
        → includes ids id || equal new id ≡ includes ids id
    absorbed (inl same) there =
        (let found : includes ids id ≡ true =
            subst (λ x. includes ids x ≡ true) ((equal_iff new id).0 same) there in
          ground arith)
    absorbed (inr apart) there = ground arith

-- The image has the id and is not passed over.
abbrev collected : List Text → List Text → Text → DockerImageInfo → Bool
collected in_use_ids protected_ids id i =
    equal i.id id && not (includes in_use_ids i.id || includes protected_ids i.id)

includes-collect :
    (in_use_ids protected_ids ids : List Text) (images : List DockerImageInfo) (id : Text)
    → includes (collect in_use_ids protected_ids ids images) id
      ≡ includes ids id || any (collected in_use_ids protected_ids id) images
unfolding collect
includes-collect used kept ids [] id = ground arith
includes-collect used kept ids (i ∷ images) id =
    elim (Bool-cases (includes used i.id || includes kept i.id)) [
      | inl passed ↦ rw passed (let rest = includes-collect used kept ids images id in ground arith)
      | inr free ↦ rw free (
          let rest = includes-collect used kept (add_id ids i.id) images id in
          let added = includes-add_id ids i.id id in ground arith)
    ]

-- Whether an image is passed over depends on its id alone.
collected-any :
    (used kept : List Text) (id : Text) (images : List DockerImageInfo)
    → any (collected used kept id) images
      ≡ any (λ i. equal i.id id) images && not (includes used id || includes kept id)
collected-any used kept id [] = refl
collected-any used kept id (i ∷ images) = elim (Bool-cases (equal i.id id)) [
  | inl same ↦
      (let rest = collected-any used kept id images in
        let skipped : includes used i.id || includes kept i.id
            ≡ includes used id || includes kept id =
          subst (λ x. includes used i.id || includes kept i.id ≡ includes used x || includes kept x)
            ((equal_iff i.id id).0 same) refl in
        ground arith)
  | inr apart ↦ (let rest = collected-any used kept id images in ground arith)
]

-- An id is chosen for removal exactly if an image has it, no image with it is in use, and no image
-- with it has a protected tag.
pub select_images_to_remove_lem :
    (images : List DockerImageInfo) (protected_refs : List Text) (id : Text)
    → includes (select_images_to_remove images protected_refs) id
      ≡ any (λ i. equal i.id id) images
        && not (
            has_id (λ i. i.in_use) id images
            || has_id (λ i. includes protected_refs i.ref) id images)
unfolding select_images_to_remove
select_images_to_remove_lem images protected_refs id =
    (let chosen =
        includes-collect (ids_of (λ i. i.in_use) images)
          (ids_of (λ i. includes protected_refs i.ref) images) [] images id in
      let by_id =
        collected-any (ids_of (λ i. i.in_use) images)
          (ids_of (λ i. includes protected_refs i.ref) images) id images in
      let used = includes-ids_of (λ i. i.in_use) images id in
      let kept = includes-ids_of (λ i. includes protected_refs i.ref) images id in
      chosen ∙ (by_id ∙ rw (used, kept) refl))
