-- ===== src/BodyStore/Swap/Failures.antt =====
-- What a failed append leaves behind.
use model_proxy_v.Base.{Bool, true, false, none, some, ◌⊎◌, ◌≡◌}
use model_proxy_v.BodyStore.Records.{append_record}
use model_proxy_v.BodyStore.Swap.{Bytes, Faults, Ran, write_record}

-- What an append may leave of a binary with these bytes: the appended record; the file as it was;
-- in place, a written record whose file could not be closed, or the part of it that was written; or,
-- where both renames behind the first one failed, the file under the name that it was put aside to.
abbrev pub Left : Bool → Bytes → Faults → Bytes → Ran → Type 0
Left windows_swap payload f bytes (d, returned) =
    (returned ≡ true) × (d.file ≡ some (append_record bytes payload))
    ⊎ (returned ≡ false) × (d.file ≡ some bytes)
    ⊎ (returned ≡ false)
      × (windows_swap ≡ true)
      × (f.open_in_place_fails ≡ false)
      × (d.file ≡ some (write_record f.write_fails bytes payload))
    ⊎ (returned ≡ false)
      × (windows_swap ≡ true)
      × (f.swap_fails ≡ true)
      × (f.restore_fails ≡ true)
      × (d.file ≡ none)
      × (d.old ≡ some bytes)
