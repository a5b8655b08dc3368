-- ===== src/Paths/Root.antt =====
-- The check for the root directory in `isSafeHostPath` compares the text only.
use yeah.Base.{
  ℕ, zero, suc, ◌≤◌, ◌≡◌, refl, ap, true, false, ◌||◌, [], Text, codes, any, includes, split_on,
  equal, is_space, replicate, length, arith, leb, ◌==◌,
}
use yeah.Paths.{is_safe_host_path}
use yeah.Paths.Inside.{resolve}

abbrev slashes : ℕ → Text
slashes n = replicate n b'/'

length-slashes : (n : ℕ) → length (slashes n) ≡ n
length-slashes zero = refl
length-slashes (suc n) = ap suc (length-slashes n)

slashes-segments :
    (n : ℕ)
    → (includes (split_on b'/' (slashes n)) (codes "..") ≡ false)
      × (resolve [] (split_on b'/' (slashes n)) ≡ [])
unfolding split_on equal
slashes-segments zero = (refl, refl)
slashes-segments (suc n) = slashes-segments n

slashes-clean :
    (n : ℕ)
    → (any (λ c. (any (λ x. x == c) (codes "\"'`$;&|<>") || is_space c) || c == b'\\') (slashes n)
        ≡ false)
      × (any (λ c. leb c 0x1f) (slashes n) ≡ false)
unfolding is_space
slashes-clean zero = (refl, refl)
slashes-clean (suc n) = slashes-clean n

-- Every text of 2 to 512 slashes is accepted as a host path, and names the root directory, although
-- the text "/" is refused.
pub is_safe_host_path-slashes :
    (n : ℕ)
    → n ≤ 510
    → (is_safe_host_path (replicate (suc (suc n)) b'/') ≡ true)
      × (resolve [] (split_on b'/' (replicate (suc (suc n)) b'/')) ≡ [])
      × (is_safe_host_path (codes "/") ≡ false)
unfolding is_safe_host_path
is_safe_host_path-slashes n h =
    let clean = slashes-clean (suc (suc n)) in
    let (inside, root) = slashes-segments (suc (suc n)) in
    (ground (arith, length-slashes n, clean.0, clean.1, inside), root, refl)
