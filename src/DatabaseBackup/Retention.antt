-- ===== src/DatabaseBackup/Retention.antt =====
-- backupDatabase.ts: which backups the retention removes. `rows` are the successful ones, the newest
-- first.
use yeah.Base.{
  ℕ, ◌+◌, ◌*◌, ◌-◌, Bool, List, [], ◌∷◌, ◌++◌, map, Text, drop, select, ltb, includes,
  if◌then◌else◌,
}
use yeah.DatabaseBackup.{Execution, Schedule}

-- The ids of the backups from the first one on at which the sum of the sizes exceeds the limit.
abbrev pub over_size : ℕ → ℕ → List Execution → List Text
over_size limit cumulative [] = []
over_size limit cumulative (e ∷ rest) =
    let total = cumulative + e.size_bytes in
    let later = over_size limit total rest in if ltb limit total then e.id ∷ later else later

abbrev pub is_older : ℕ → Execution → Bool
is_older cutoff e = ltb e.created_at cutoff

abbrev pub id_of : Execution → Text
id_of e = e.id

abbrev pub day_ms : ℕ
day_ms = 24 * 60 * 60 * 1000

-- A cutoff before the epoch selects nothing, as 0 does.
unfoldable pub expired_ids : Schedule → ℕ → List Execution → List Text
expired_ids schedule now rows =
    (if ltb 0 schedule.retention_count then map id_of (drop schedule.retention_count rows) else [])
    ++ (if ltb 0 schedule.retention_days
        then map id_of (select (is_older (now - schedule.retention_days * day_ms)) rows)
        else [])
    ++ (if ltb 0 schedule.retention_size_gb
        then over_size (schedule.retention_size_gb * 1024 * 1024 * 1024) 0 rows
        else [])

unfoldable pub to_delete : Schedule → ℕ → List Execution → List Execution
to_delete schedule now rows = select (λ e. includes (expired_ids schedule now rows) e.id) rows
