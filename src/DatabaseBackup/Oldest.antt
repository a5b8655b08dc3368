-- ===== src/DatabaseBackup/Oldest.antt =====
-- backupDatabase.ts: the retention removes the oldest backups.
use yeah.Base.{
  ℕ, zero, suc, ◌+◌, ◌*◌, ◌-◌, ◌≤◌, Bool, true, false, ◌||◌, List, [], ◌∷◌, ◌++◌, map, Text, drop,
  length, select, ltb, equal_refl, includes, All, Bool-cases, inl, inr, if◌then◌else◌, ◌≡◌, refl,
  ap, ◌∙◌, fun_ext, arith,
}
use yeah.DatabaseBackup.{Execution, Schedule}
use yeah.DatabaseBackup.Retention.{over_size, is_older, id_of, day_ms, expired_ids, to_delete}

-- No two rows have the same id.
abbrev pub Distinct : List Execution → Type 0
Distinct [] = Unit
Distinct (e ∷ rest) = (includes (map id_of rest) e.id ≡ false) × Distinct rest

-- The newest first.
abbrev pub NewestFirst : List Execution → Type 0
NewestFirst [] = Unit
NewestFirst (e ∷ rest) = All (λ x. x.created_at ≤ e.created_at) rest × NewestFirst rest

abbrev least : ℕ → ℕ → ℕ
least zero b = zero
least (suc a) zero = zero
least (suc a) (suc b) = suc (least a b)

includes-append :
    (xs ys : List Text) (t : Text) → includes (xs ++ ys) t ≡ includes xs t || includes ys t
includes-append [] ys t = refl
includes-append (x ∷ xs) ys t = rw (includes-append xs ys t) (ground arith)

includes-drop :
    (rows : List Execution) (b : ℕ) (t : Text)
    → includes (map id_of rows) t || includes (map id_of (drop b rows)) t
      ≡ includes (map id_of rows) t
includes-drop [] zero t = refl
includes-drop [] (suc b) t = refl
includes-drop (e ∷ rest) zero t = ground arith
includes-drop (e ∷ rest) (suc b) t = let later = includes-drop rest b t in ground arith

includes-least :
    (rows : List Execution) (a b : ℕ) (t : Text)
    → includes (map id_of (drop a rows)) t || includes (map id_of (drop b rows)) t
      ≡ includes (map id_of (drop (least a b) rows)) t
includes-least rows zero b t = includes-drop rows b t
includes-least rows (suc a) zero t = let later = includes-drop rows (suc a) t in ground arith
includes-least [] (suc a) (suc b) t = refl
includes-least (e ∷ rest) (suc a) (suc b) t = includes-least rest a b t

select-every :
    (p : Execution → Bool) (rows : List Execution)
    → All (λ e. p e ≡ true) rows
    → select p rows ≡ rows
select-every p [] every = refl
select-every p (e ∷ rest) every = rw (every.0, select-every p rest every.1) refl

All-own :
    (rows : List Execution) (ids : List Text)
    → ((t : Text) → includes (map id_of rows) t ≡ true → includes ids t ≡ true)
    → All (λ e. includes ids e.id ≡ true) rows
All-own [] ids within = tt
All-own (e ∷ rest) ids within = (
  within e.id (rw (equal_refl e.id) refl),
  All-own rest ids (λ t m. within t (rw m (ground arith))),
)

-- What a suffix of distinct rows selects is the suffix.
select-drop :
    (rows : List Execution) (k : ℕ)
    → Distinct rows
    → select (λ e. includes (map id_of (drop k rows)) e.id) rows ≡ drop k rows
select-drop rows zero distinct = select-every _ rows (All-own rows (map id_of rows) (λ t m. m))
select-drop [] (suc k) distinct = refl
select-drop (e ∷ rest) (suc k) distinct =
    let skipped : includes (map id_of (drop k rest)) e.id ≡ false =
      (let within = includes-drop rest k e.id in let out = distinct.0 in ground arith) in
    rw (skipped, select-drop rest k distinct.1) refl

is_older-every :
    (cutoff n : ℕ) (rows : List Execution)
    → ltb n cutoff ≡ true
    → All (λ x. x.created_at ≤ n) rows
    → All (λ x. is_older cutoff x ≡ true) rows
is_older-every cutoff n [] old newer = tt
is_older-every cutoff n (e ∷ rest) old newer =
    (let le = newer.0 in ground arith, is_older-every cutoff n rest old newer.1)

select-is_older :
    (cutoff : ℕ) (rows : List Execution)
    → NewestFirst rows
    → (k : ℕ) × (select (is_older cutoff) rows ≡ drop k rows)
select-is_older cutoff [] sorted = (zero, refl)
select-is_older cutoff (e ∷ rest) sorted = elim (Bool-cases (is_older cutoff e)) [
  | inl old ↦ (
    zero,
    select-every (is_older cutoff) (e ∷ rest)
        (old, is_older-every cutoff e.created_at rest old sorted.0),
  )
  | inr recent ↦
      (let (k, same) = select-is_older cutoff rest sorted.1 in (suc k, rw (recent, same) refl))
]

over_size-every :
    (limit cumulative : ℕ) (rows : List Execution)
    → ltb limit cumulative ≡ true
    → over_size limit cumulative rows ≡ map id_of rows
over_size-every limit cumulative [] over = refl
over_size-every limit cumulative (e ∷ rest) over =
    let more : ltb limit (cumulative + e.size_bytes) ≡ true = ground arith in
    rw (more, over_size-every limit (cumulative + e.size_bytes) rest more) refl

over_size-drop :
    (limit cumulative : ℕ) (rows : List Execution)
    → (k : ℕ) × (over_size limit cumulative rows ≡ map id_of (drop k rows))
over_size-drop limit cumulative [] = (zero, refl)
over_size-drop limit cumulative (e ∷ rest) =
    elim (Bool-cases (ltb limit (cumulative + e.size_bytes))) [
      | inl over ↦
          (zero, rw (over, over_size-every limit (cumulative + e.size_bytes) rest over) refl)
      | inr under ↦
          (let (k, same) = over_size-drop limit (cumulative + e.size_bytes) rest in
            (suc k, rw (under, same) refl))
    ]

drop-length : (rows : List Execution) → drop (length rows) rows ≡ []
drop-length [] = refl
drop-length (e ∷ rest) = drop-length rest

-- The texts are the ids of the rows from some row on.
abbrev Cut : List Execution → List Text → Type 0
Cut rows ids = (k : ℕ) × ((t : Text) → includes ids t ≡ includes (map id_of (drop k rows)) t)

append-Cut :
    (rows : List Execution) (xs ys : List Text) → Cut rows xs → Cut rows ys → Cut rows (xs ++ ys)
append-Cut rows xs ys (a, here) (b, there) =
    (least a b, λ t. includes-append xs ys t ∙ rw (here t, there t) (includes-least rows a b t))

-- A rule of the retention that is set, or not.
ruled-Cut :
    (rows : List Execution) (b : Bool) (ids : List Text)
    → ((k : ℕ) × (ids ≡ map id_of (drop k rows)))
    → Cut rows (if b then ids else [])
ruled-Cut rows true ids (k, same) = (k, λ t. rw same refl)
ruled-Cut rows false ids cut = (length rows, λ t. rw (drop-length rows) refl)

expired_ids-Cut :
    (schedule : Schedule) (now : ℕ) (rows : List Execution)
    → NewestFirst rows
    → Cut rows (expired_ids schedule now rows)
unfolding expired_ids
expired_ids-Cut schedule now rows sorted =
    append-Cut rows _ _
      (append-Cut rows _ _
        (ruled-Cut rows (ltb 0 schedule.retention_count)
          (map id_of (drop schedule.retention_count rows)) (schedule.retention_count, refl))
        (ruled-Cut rows (ltb 0 schedule.retention_days)
          (map id_of (select (is_older (now - schedule.retention_days * day_ms)) rows)) aged))
      ((ruled-Cut rows (ltb 0 schedule.retention_size_gb)
        (over_size (schedule.retention_size_gb * 1024 * 1024 * 1024) 0 rows)
        (over_size-drop (schedule.retention_size_gb * 1024 * 1024 * 1024) 0 rows)))
  where
    aged :
        (k : ℕ) × (map id_of (select (is_older (now - schedule.retention_days * day_ms)) rows)
          ≡ map id_of (drop k rows))
    aged =
        let old = select-is_older (now - schedule.retention_days * day_ms) rows sorted in
        (old.0, ap (map id_of) old.1)

-- Where the rows have ids of their own and stand with the newest first, the backups that the retention
-- removes are the oldest ones: all from some row on, so that no backup is kept behind a removed one.
pub to_delete-drop :
    (schedule : Schedule) (now : ℕ) (rows : List Execution)
    → Distinct rows
    → NewestFirst rows
    → (k : ℕ) × (to_delete schedule now rows ≡ drop k rows)
unfolding to_delete
to_delete-drop schedule now rows distinct sorted =
    let (k, same) = expired_ids-Cut schedule now rows sorted in
    (
      k,
      ap (λ (p : Execution → Bool). select p rows) (fun_ext (λ e. same e.id))
          ∙ select-drop rows k distinct,
    )
