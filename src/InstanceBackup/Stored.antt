-- ===== src/InstanceBackup/Stored.antt =====
-- instanceBackup.ts: what the success of a backup stands on.
use yeah.Base.{ℕ, Bool, true, false, ◌&&◌, ◌||◌, List, [], ◌∷◌, Text, ◌≡◌, refl}
use yeah.Program.{World, Event, History, Reply, answered, is_answered, act, note}
use yeah.Program.Order.{preceded, Safe, Ready, Safe-more, Ready-more}
use yeah.Program.Logic.{
  Assertion, Leads, Keeps, bind, give, only, event_of, outcome, noted, calls, acts, attempted,
  catching, finally_done, bind_call, weaken,
}
use yeah.Program.Steps.{checked-Keeps, ensure-Keeps}
use yeah.Program.Success.{sound, backed, late}
use yeah.InstanceBackup.{
  InstanceCall, InstanceError, store_running, store_failed, notify_failure, store_backup,
  connect_panel, end_panel, open_dump, upload_panel, remove_copy, list_backups, exec_panel,
  dump_panel, measure_panel, delete_key, InstanceInputs, instance_backups_to_delete,
}
use yeah.InstanceBackup.Job.{
  upload_whole, delete_keys, dump_and_upload, instance_body, instance_failure, instance_backup,
}
use yeah.InstanceBackup.Staging.{uploads_panel}

abbrev stores_backup : InstanceCall → Bool
stores_backup (store_backup size) = true
stores_backup _ = false

abbrev pub succeeds_instance : Event InstanceCall → Bool
succeeds_instance e = stores_backup e.effect

abbrev pub uploaded_panel : Event InstanceCall → Bool
uploaded_panel e = uploads_panel e && is_answered e.reply

abbrev Sound : Assertion InstanceCall
Sound = Safe succeeds_instance uploaded_panel

abbrev Uploaded : Assertion InstanceCall
Uploaded = Ready succeeds_instance uploaded_panel

module _ (world : World InstanceCall) (parse_int : Text → ℕ) where
  goes :
      (effect : InstanceCall)
      → stores_backup effect ≡ false
      → Keeps {F = InstanceError} Sound (act world effect)
  goes effect other = sound succeeds_instance uploaded_panel world effect (λ h. other)

  more :
      (effect : InstanceCall) → Leads {F = InstanceError} Uploaded Uploaded Sound (act world effect)
  more effect = backed succeeds_instance uploaded_panel world effect

  kept :
      (effect : InstanceCall) (h : History InstanceCall) (r : Reply)
      → stores_backup effect ≡ false
      → Sound h
      → Sound (record { effect = effect; reply = r } ∷ h)
  kept effect h r other s =
      Safe-more succeeds_instance uploaded_panel (record { effect = effect; reply = r }) h other s

  upload_whole-Uploaded :
      (size : ℕ) → Leads Sound Uploaded Sound (upload_whole world parse_int size)
  unfolding upload_whole
  upload_whole-Uploaded size = bind (goes open_dump refl) (λ _.
      bind_call world (λ code output. Uploaded) upload_panel _
        (λ h r s. kept upload_panel h r refl s)
        (λ h code output s. (kept upload_panel h (answered code output) refl s, refl))
        (λ code output. late succeeds_instance uploaded_panel (ensure-Keeps _ _)))

  delete_keys-Keeps : (keys : List Text) → Keeps Uploaded (delete_keys world parse_int keys)
  unfolding delete_keys
  delete_keys-Keeps [] = give
  delete_keys-Keeps (key ∷ rest) =
      bind
        (attempted (
          acts world (delete_key key)
            (λ h u.
              Ready-more succeeds_instance uploaded_panel (event_of world (delete_key key) h) h u)
            (λ h u.
              Ready-more succeeds_instance uploaded_panel (event_of world (delete_key key) h) h u)))
        (λ _. delete_keys-Keeps rest)

  dump_and_upload-Uploaded :
      (inputs : InstanceInputs)
      → Leads Sound Uploaded Sound (dump_and_upload world parse_int inputs)
  unfolding dump_and_upload
  dump_and_upload-Uploaded inputs =
      bind
        (checked-Keeps world (exec_panel dump_panel) _
          (λ h s. kept (exec_panel dump_panel) h (world h (exec_panel dump_panel)) refl s))
        (λ dumped.
          bind
            (calls world (exec_panel measure_panel)
              (λ h s. kept (exec_panel measure_panel) h (world h (exec_panel measure_panel)) refl s)
              (λ h s.
                kept (exec_panel measure_panel) h (world h (exec_panel measure_panel)) refl s))
            (λ measured.
              bind
                (finally_done (upload_whole-Uploaded _) (more remove_copy) (goes remove_copy refl))
                (λ _. bind (more list_backups) (λ _.
                  bind
                    (late succeeds_instance uploaded_panel (
                      delete_keys-Keeps
                        (instance_backups_to_delete inputs.listed inputs.retention)))
                    (λ _. weaken (λ h u. u) (λ h u. u) (λ h s. s) give)))))

  -- Whatever the calls answer or throw, the success of a backup of the panel is stored only after an upload of
  -- the dump to S3 was answered.
  pub instance_backup_uploaded :
      (inputs : InstanceInputs)
      → preceded succeeds_instance uploaded_panel (instance_backup world parse_int inputs []).0
        ≡ true
  unfolding instance_backup instance_body instance_failure
  instance_backup_uploaded inputs =
      outcome
        (only _ (
          bind (goes store_running refl) (λ _.
            catching
              (bind (ensure-Keeps _ _) (λ _. bind (ensure-Keeps _ _) (λ _.
                bind (goes connect_panel refl) (λ _.
                  bind (finally_done (dump_and_upload-Uploaded inputs) left_late left) (λ size.
                    weaken (λ h u. u) (λ h u. u.0) (λ h s. s) (more (store_backup size)))))))
              (bind (goes store_failed refl) (λ _.
                only (inputs.has_storage_row || inputs.has_host_row) (goes notify_failure refl))))))
        [] refl
    where
      left : Keeps {F = InstanceError} Sound (note end_panel)
      left = noted end_panel (λ h s. kept end_panel h (answered 0 []) refl s)

      left_late : Leads {F = InstanceError} Uploaded Uploaded Sound (note end_panel)
      left_late = noted end_panel (λ h u.
          Ready-more succeeds_instance uploaded_panel
            (record { effect = end_panel; reply = answered 0 [] }) h u)
