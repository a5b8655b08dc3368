-- ===== src/ImagePrune/Tests.antt =====
-- The image cleanup at concrete inputs.
use yeah.Base.{
  true, false, ◌&&◌, ◌||◌, not, List, [], ◌∷◌, any, Text, codes, equal, includes, ◌≡◌, refl,
}
use yeah.ImagePrune.{DockerImageInfo, select_images_to_remove, collect}
use yeah.ImagePrune.Removal.{has_id, select_images_to_remove_lem}

-- Two tags of one image, of which one is protected, an image in use, and a free one.
abbrev shelf : List DockerImageInfo
shelf =
    record { id = codes "a"; ref = codes "app:1"; in_use = false }
    ∷ record { id = codes "a"; ref = codes "app:2"; in_use = false }
    ∷ record { id = codes "b"; ref = codes "db:1"; in_use = true }
    ∷ record { id = codes "c"; ref = codes "old:1"; in_use = false }
    ∷ []

abbrev kept_refs : List Text
kept_refs = codes "app:2" ∷ []

removed : select_images_to_remove shelf kept_refs ≡ codes "c" ∷ []
unfolding select_images_to_remove collect equal
removed = refl

select_images_to_remove_lem_example :
    includes (select_images_to_remove shelf kept_refs) (codes "a")
    ≡ any (λ i. equal i.id (codes "a")) shelf
      && not (
          has_id (λ i. i.in_use) (codes "a") shelf
          || has_id (λ i. includes kept_refs i.ref) (codes "a") shelf)
select_images_to_remove_lem_example = select_images_to_remove_lem shelf kept_refs (codes "a")
