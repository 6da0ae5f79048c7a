-- ===== src/Tier0/Destruction.antt =====
-- What the destruction attempts, leaves and reports.
use macbastion.Prelude.{
  ◌+◌, Bool, true, false, if◌then◌else◌, ◌≡◌, List, [], ◌∷◌, map, length, keep_if, is_some,
}
use macbastion.Exec.{Result, ok, err}
use macbastion.Tier0.{StateFile, Deed, evict, unlink, Eviction, evicted, refused, broke, Report}

abbrev pub is_stuck : StateFile → Bool
is_stuck f = is_some f.unlink_error

-- all files were unlinked in order, those are left whose unlinking failed, and each file, and a refusal
-- of the eviction, is counted or has its error in the report
abbrev pub IsWiped : Bool → List StateFile → Result Report × List StateFile × List Deed → Type 0
IsWiped done files (r, left, deeds) =
    (deeds ≡ evict ∷ map (λ (f : StateFile). unlink f.name) files)
    × (left ≡ keep_if is_stuck files)
    × (report : Report) × (r ≡ ok report)
    × (report.keychain_evicted ≡ done)
    × (report.state_files_removed + length report.errors ≡ length files + (if done then 0 else 1))

-- What the destruction comes to, by the outcome of the eviction.
abbrev pub Destroys :
    Eviction → List StateFile → Result Report × List StateFile × List Deed → Type 0
Destroys evicted files end_ = IsWiped true files end_
Destroys (refused reason) files end_ = IsWiped false files end_
Destroys (broke x) files (r, left, deeds) = (r ≡ err x) × (left ≡ files) × (deeds ≡ evict ∷ [])
