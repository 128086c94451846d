-- ===== src/ProfilePool/Manifests.antt =====
-- `manifest.go` over a directory of decoded files, and `saveManifest` in `pool.go`.
use search_x.Prelude.{
  ℕ, ◌==◌, Bool, true, false, not, ◌||◌, List, [], ◌∷◌, Option, none, some, if◌then◌else◌,
}
use search_x.Prelude.Text.{Text, codes, text_eq}
use search_x.Domain.Errors.{Error, plain}
use search_x.ProfilePool.Types.{Entry, Manifest, Store, Disk}

-- The outcome of the next file operation.
next_fault : List (Option Error) → Option Error × List (Option Error)
next_fault [] = (none, [])
next_fault (f ∷ fs) = (f, fs)

-- `err == nil`
is_nil : Option Error → Bool
is_nil none = true
is_nil (some e) = false

pub data Loaded (R : Type 0) : Type 0 where
  missing : Loaded R
  found : Manifest R → Loaded R
  failed : Error → Loaded R

module _ {R : Type 0} where
  unfoldable pub read_file : Text → List (Text × Manifest R) → Option (Manifest R)
  read_file id [] = none
  read_file id ((k, m) ∷ fs) = if text_eq k id then some m else read_file id fs

  unfoldable pub write_file :
      Text → Manifest R → List (Text × Manifest R) → List (Text × Manifest R)
  write_file id m [] = (id, m) ∷ []
  write_file id m ((k, w) ∷ fs) = if text_eq k id then (k, m) ∷ fs else (k, w) ∷ write_file id m fs

  checked : Text → Option (Manifest R) → Loaded R
  checked id none = missing
  checked id (some m) =
      if not (m.version == 1) || not (text_eq m.profile_id id)
      then failed (plain (codes "invalid manifest"))
      else found m

  -- `Load`
  unfoldable pub load : Text → Store R → Store R × Loaded R
  unfolding checked next_fault
  load id s =
      let (fault, rest) = next_fault s.faults in
      (
        record s { faults = rest },
        elim fault [ some e ↦ failed e | none ↦ checked id (read_file id s.files) ],
      )

  -- `Save`: the file is renamed into place, so a failed save leaves the old one.
  unfoldable pub save : Manifest R → Store R → Store R × Option Error
  unfolding next_fault
  save m s =
      let (fault, rest) = next_fault s.faults in
      elim fault [
        | some e ↦ (record s { faults = rest }, some e)
        | none ↦ (
          record s {
            files = write_file m.profile_id (record m { version = 1 }) s.files;
            faults = rest;
          },
          none,
        )
      ]

  unfoldable pub manifest_of : Entry R → ℕ → Manifest R
  manifest_of e now = record {
    version = 0;
    profile_id = e.profile.id;
    provider = e.profile.provider;
    desired_state = e.state;
    effective_samples = e.effective_samples;
    success_weight = e.success_weight;
    failure_weight = e.failure_weight;
    recent_ewma = e.recent_ewma;
    consecutive_failures = e.consecutive_failures;
    generation = e.generation;
    quarantined_until = e.quarantined_until;
    recovery_attempts = e.recovery_attempts;
    updated_at = now;
  }

  -- `saveManifest`: without a store it does nothing, and leaves `manifestHealthy` alone.
  unfoldable pub save_manifest : Entry R → ℕ → Disk R → Disk R × Option Error
  unfolding save manifest_of is_nil
  save_manifest e now d = elim d.store [
    | none ↦ (d, none)
    | some s ↦
        let (s', err) = save (manifest_of e now) s in
        (record { store = some s'; manifest_healthy = is_nil err }, err)
  ]
