-- ===== src/Paths/Image.antt =====
-- Accepted image references are plain words of a shell.
use yeah.Base.{
  ℕ, ◌-◌, ◌≡◌, ◌≢◌, refl, sym, ◌∙◌, ap, subst, inl, inr, Bool, true, false, ◌&&◌, ◌||◌, some, List,
  [], ◌∷◌, ◌++◌, Text, codes, append_assoc, append-nil, all, All, All-append, one_of, is_alnum,
  ◌==◌, leb, arith, starts_with, starts_with-append_drop, within, is_digit, Bool-cases,
  take-append-drop, take, drop, length,
}
use mathlib.Core.Bool.{and-eq-true_iff}
use yeah.Shell.Posix.{read, words, bare, is_special, is_blank}
use yeah.Paths.{is_valid_docker_image, is_image_ref, image_ref, is_digest, is_valid_compose_service}

-- A character that a shell takes as it stands.
abbrev IsPlain : ℕ → Type 0
IsPlain c =
    ((c == b'\'') ≡ false) × ((c == b'\\') ≡ false) × (is_blank c ≡ false) × (is_special c ≡ false)

read-plain :
    (s : Text) (out : List Text) (word : Text)
    → All IsPlain s
    → read bare out word s ≡ some (out ++ (word ++ s) ∷ [])
unfolding read
read-plain [] out word h = rw append-nil
read-plain (c ∷ s) out word ((p, q, b, n), h) =
    simp (p, q, b, n)
      (read-plain s out (word ++ c ∷ []) h
        ∙ ap (λ w. some (out ++ w ∷ [])) (append_assoc word (c ∷ []) s))

abbrev is_word_char : ℕ → Bool
is_word_char c = is_alnum c || one_of (codes "._/:-@") c

word_char-IsPlain : (c : ℕ) → is_word_char c ≡ true → IsPlain c
word_char-IsPlain c h = ground arith

words-plain : (s : Text) → All IsPlain s → s ≢ [] → words s ≡ some (s ∷ [])
unfolding read
words-plain [] h ne = absurd (ne refl)
words-plain (c ∷ s) ((p, q, b, n), h) ne = simp (p, q, b, n) (read-plain s [] (c ∷ []) h)

all-IsPlain :
    (p : ℕ → Bool)
    → ((c : ℕ) → p c ≡ true → is_word_char c ≡ true)
    → (s : Text) → all p s ≡ true
    → All IsPlain s
all-IsPlain p word [] h = tt
all-IsPlain p word (c ∷ s) h =
    let (here, later) = (and-eq-true_iff _ _).0 h in
    (word_char-IsPlain c (word c here), all-IsPlain p word s later)

is_image_ref-IsPlain : (s : Text) → is_image_ref s ≡ true → All IsPlain s
unfolding is_image_ref
is_image_ref-IsPlain [] h = tt
is_image_ref-IsPlain (c ∷ s) h =
    let here : is_alnum c ≡ true = ground arith in
    let later : all (λ d. is_alnum d || one_of (codes "._/:-") d) s ≡ true = ground arith in
    (
      word_char-IsPlain c (ground arith),
      all-IsPlain (λ d. is_alnum d || one_of (codes "._/:-") d) (λ d k. ground arith) s later,
    )

is_digest-IsPlain : (s : Text) → is_digest s ≡ true → All IsPlain s
unfolding is_digest
is_digest-IsPlain s h =
    let marked : starts_with (codes "@sha256:") s ≡ true = ground arith in
    let hex : all (λ c. within b'a' b'f' c || is_digit c) (drop 8 s) ≡ true = ground arith in
    subst (All IsPlain) (sym (starts_with-append_drop (codes "@sha256:") s marked)) (
      All-append IsPlain (codes "@sha256:") (drop 8 s)
        (all-IsPlain is_word_char (λ c h. h) (codes "@sha256:") refl)
        (all-IsPlain (λ c. within b'a' b'f' c || is_digit c) (λ c k. ground arith) (drop 8 s) hex))

image-IsPlain : (image : Text) → is_image_ref (image_ref image) ≡ true → All IsPlain image
unfolding image_ref
image-IsPlain image h =
    let cut = length image - 72 in
    elim (Bool-cases (leb 72 (length image) && is_digest (drop cut image))) [
      | inl digested ↦ subst (All IsPlain) (take-append-drop cut image) (
          All-append IsPlain (take cut image) (drop cut image)
            (is_image_ref-IsPlain (take cut image) (rw digested at h))
            (is_digest-IsPlain (drop cut image) (ground arith)))
      | inr whole ↦ is_image_ref-IsPlain image (rw whole at h)
    ]

-- An accepted image reference, put into a command without quotes, is read by a shell as exactly one
-- word, the reference itself.
pub is_valid_docker_image-words :
    (image : Text) → is_valid_docker_image image ≡ true → words image ≡ some (image ∷ [])
unfolding is_valid_docker_image
is_valid_docker_image-words image h =
    words-plain image (image-IsPlain image (ground arith))
      (λ e. let full : (length image == 0) ≡ false = ground arith in cc (rw e at full))

-- So is an accepted compose service name.
pub is_valid_compose_service-words :
    (name : Text) → is_valid_compose_service name ≡ true → words name ≡ some (name ∷ [])
unfolding is_valid_compose_service
is_valid_compose_service-words [] h = cc
is_valid_compose_service-words (c ∷ s) h =
    let here : is_alnum c ≡ true = ground arith in
    let later : all (λ d. is_alnum d || one_of (codes "._-") d) s ≡ true = ground arith in
    words-plain (c ∷ s)
      (
        word_char-IsPlain c (ground arith),
        all-IsPlain (λ d. is_alnum d || one_of (codes "._-") d) (λ d k. ground arith) s later,
      )
      (λ e. cc)
