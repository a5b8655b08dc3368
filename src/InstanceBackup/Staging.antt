-- ===== src/InstanceBackup/Staging.antt =====
-- instanceBackup.ts: the copy on the host is removed whatever happens to the upload.
use yeah.Base.{ℕ, Bool, true, false, ◌||◌, List, [], ◌∷◌, Text, trim, ◌≡◌, refl}
use yeah.Program.{World, Event, History, act, note}
use yeah.Program.Order.{pending}
use yeah.Program.Logic.{
  Assertion, Leads, Keeps, bind, give, only, event_of, outcome, noted, calls, acts, attempted,
  catching, finally_done, anyhow,
}
use yeah.Program.Steps.{checked-Keeps, ensure-Keeps}
use yeah.InstanceBackup.{
  InstanceCall, InstanceError, store_running, store_failed, notify_failure, store_backup,
  connect_panel, end_panel, upload_panel, remove_copy, list_backups, exec_panel, dump_panel,
  measure_panel, delete_key, InstanceInputs, instance_backups_to_delete,
}
use yeah.InstanceBackup.Job.{
  upload_whole, delete_keys, dump_and_upload, instance_body, instance_failure, instance_backup,
}

abbrev is_upload : InstanceCall → Bool
is_upload upload_panel = true
is_upload _ = false

abbrev is_removal : InstanceCall → Bool
is_removal remove_copy = true
is_removal _ = false

abbrev pub uploads_panel : Event InstanceCall → Bool
uploads_panel e = is_upload e.effect

abbrev pub removes_copy : Event InstanceCall → Bool
removes_copy e = is_removal e.effect

abbrev Clean : Assertion InstanceCall
Clean h = pending uploads_panel removes_copy h ≡ false

abbrev Anything : Assertion InstanceCall
Anything h = Unit

module _ (world : World InstanceCall) (parse_int : Text → ℕ) where
  goes :
      (effect : InstanceCall)
      → ((h : History InstanceCall) → Clean h → Clean (event_of world effect h ∷ h))
      → Keeps {F = InstanceError} Clean (act world effect)
  goes effect keeps = acts world effect keeps keeps

  removed : Leads {F = InstanceError} Anything Clean Clean (act world remove_copy)
  removed = acts world remove_copy (λ h p. refl) (λ h p. refl)

  delete_keys-Keeps : (keys : List Text) → Keeps Clean (delete_keys world parse_int keys)
  unfolding delete_keys
  delete_keys-Keeps [] = give
  delete_keys-Keeps (key ∷ rest) =
      bind (attempted (goes (delete_key key) (λ h p. p))) (λ _. delete_keys-Keeps rest)

  dump_and_upload-Keeps :
      (inputs : InstanceInputs) → Keeps Clean (dump_and_upload world parse_int inputs)
  unfolding dump_and_upload
  dump_and_upload-Keeps inputs =
      bind (checked-Keeps world (exec_panel dump_panel) _ (λ h p. p)) (λ dumped.
        bind (calls world (exec_panel measure_panel) (λ h p. p) (λ h p. p)) (λ measured.
          bind
            (finally_done
              (anyhow Clean (upload_whole world parse_int (parse_int (trim measured.1)))) removed
              removed)
            (λ _. bind (goes list_backups (λ h p. p)) (λ _.
              bind (delete_keys-Keeps (instance_backups_to_delete inputs.listed inputs.retention))
                (λ _. give)))))

  -- Whatever the calls answer or throw, every upload of the panel's dump is followed by the call that removes
  -- the copy on the host.
  pub instance_backup-removes_copy :
      (inputs : InstanceInputs)
      → pending uploads_panel removes_copy (instance_backup world parse_int inputs []).0 ≡ false
  unfolding instance_backup instance_body instance_failure
  instance_backup-removes_copy inputs =
      outcome
        (only _ (
          bind (goes store_running (λ h p. p)) (λ _.
            catching
              (bind (ensure-Keeps _ _) (λ _. bind (ensure-Keeps _ _) (λ _.
                bind (goes connect_panel (λ h p. p)) (λ _.
                  bind (finally_done (dump_and_upload-Keeps inputs) left left)
                    (λ size. goes (store_backup size) (λ h p. p))))))
              (bind (goes store_failed (λ h p. p)) (λ _.
                only (inputs.has_storage_row || inputs.has_host_row)
                  (goes notify_failure (λ h p. p)))))))
        [] refl
    where
      left : Keeps {F = InstanceError} Clean (note end_panel)
      left = noted end_panel (λ h p. p)
