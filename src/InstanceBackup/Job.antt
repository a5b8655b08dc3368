-- ===== src/InstanceBackup/Job.antt =====
-- instanceBackup.ts: the job. `parse_int` is the runtime's `Number.parseInt(_, 10) || 0`.
use yeah.Base.{ℕ, ◌&&◌, ◌||◌, not, List, [], ◌∷◌, Text, ◌==◌, ltb, trim}
use yeah.Program.{World, ◌>>=◌, ◌>>◌, pure, only_if, attempt, call, act, catch, finally, note}
use yeah.Program.Steps.{checked, ensure}
use yeah.InstanceBackup.{
  dump_panel, measure_panel, InstanceCall, store_running, store_failed, notify_failure,
  store_backup, connect_panel, end_panel, open_dump, upload_panel, remove_copy, list_backups,
  exec_panel, delete_key, no_storage, no_host, dump_failed, sent_wrong, InstanceJob, InstanceInputs,
  is_instance_backup_due, instance_backups_to_delete,
}

module _ (world : World InstanceCall) (parse_int : Text → ℕ) where
  unfoldable pub upload_whole : ℕ → InstanceJob Unit
  upload_whole size = do
    act world open_dump
    sent ← call world upload_panel
    ensure (not (ltb 0 size && not (sent.0 == size))) (sent_wrong sent.0 size)

  unfoldable pub delete_keys : List Text → InstanceJob Unit
  delete_keys [] = pure tt
  delete_keys (key ∷ rest) = attempt (act world (delete_key key)) >> delete_keys rest

  -- What is done over the connection to the panel's host, with the size of the dump.
  unfoldable pub dump_and_upload : InstanceInputs → InstanceJob ℕ
  dump_and_upload inputs = do
    dumped ← checked world (exec_panel dump_panel) (λ result. dump_failed)
    measured ← call world (exec_panel measure_panel)
    finally (upload_whole (parse_int (trim measured.1))) (act world remove_copy)
    act world list_backups
    delete_keys (instance_backups_to_delete inputs.listed inputs.retention)
    pure (parse_int (trim measured.1))

  unfoldable pub instance_body : InstanceInputs → InstanceJob Unit
  instance_body inputs = do
    ensure inputs.has_storage_row no_storage
    ensure inputs.has_host_row no_host
    act world connect_panel
    size ← finally (dump_and_upload inputs) (note end_panel)
    act world (store_backup size)

  -- A team is known where the storage or the host is.
  unfoldable pub instance_failure : InstanceInputs → InstanceJob Unit
  instance_failure inputs = do
    act world store_failed
    only_if (inputs.has_storage_row || inputs.has_host_row) (act world notify_failure)

  unfoldable pub instance_backup : InstanceInputs → InstanceJob Unit
  instance_backup inputs =
      only_if (is_instance_backup_due inputs.now inputs.schedule inputs.force)
        (do act world store_running; catch (instance_body inputs) (instance_failure inputs))
