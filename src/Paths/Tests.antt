-- ===== src/Paths/Tests.antt =====
-- Runs of the validators, and instances of their theorems.
use yeah.Base.{◌≡◌, refl, true, false, inl, [], ◌∷◌, ◌++◌, Text, codes, replicate}
use yeah.Paths.{
  is_safe_publish_directory, is_safe_compose_file, is_safe_host_path, is_safe_mount_path,
  is_safe_browser_path, is_safe_stack_path, is_valid_compose_service, is_valid_docker_image,
  image_ref,
}
use yeah.Paths.Inside.{resolve_path, Below, accepted-inside}

accepts :
    (is_safe_publish_directory (codes "dist/./web") ≡ true)
    × (is_safe_compose_file (codes "deploy/compose.yml") ≡ true)
    × (is_safe_host_path (codes "/srv/data") ≡ true)
    × (is_safe_mount_path (codes "/var/lib/my data") ≡ true)
    × (is_safe_browser_path (codes "/etc") ≡ true)
    × (is_safe_stack_path (codes "conf/nginx.conf") ≡ true)
    × (is_valid_compose_service (codes "web-1") ≡ true)
unfolding is_safe_publish_directory is_safe_compose_file is_safe_host_path is_safe_mount_path
    is_safe_browser_path is_safe_stack_path is_valid_compose_service
accepts = (refl, refl, refl, refl, refl, refl, refl)

refuses :
    (is_safe_publish_directory (codes "dist/../..") ≡ false)
    × (is_safe_compose_file (codes "/etc/passwd") ≡ false)
    × (is_safe_host_path (codes "/") ≡ false)
    × (is_safe_mount_path (codes "/a;b") ≡ false)
    × (is_safe_browser_path (codes "/a/../b") ≡ false)
    × (is_safe_stack_path (codes "conf//nginx.conf") ≡ false)
    × (is_valid_compose_service (codes "-web") ≡ false)
unfolding is_safe_publish_directory is_safe_compose_file is_safe_host_path is_safe_mount_path
    is_safe_browser_path is_safe_stack_path is_valid_compose_service
refuses = (refl, refl, refl, refl, refl, refl, refl)

abbrev pinned : Text
pinned = codes "ghcr.io:443/org/app" ++ (codes "@sha256:" ++ replicate 64 b'a')

images :
    (is_valid_docker_image pinned ≡ true)
    × (is_valid_docker_image (codes "nginx:1.27") ≡ true)
    × (is_valid_docker_image (codes "nginx:1:2") ≡ false)
    × (is_valid_docker_image (codes "a//b") ≡ false)
unfolding is_valid_docker_image image_ref
images = (refl, refl, refl, refl)

accepted-inside_example :
    Below (codes "repo" ∷ []) (resolve_path (codes "repo" ∷ []) (codes "dist/./web"))
accepted-inside_example = accepted-inside (codes "repo" ∷ []) (codes "dist/./web") (inl accepts.0)
