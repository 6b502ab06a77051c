-- ===== src/Caddy/ConfigFile/Kept.antt =====
-- How many backups are kept, and which.
use pdai_server_panel.Common.{
  ℕ, zero, suc, ◌-◌, ◌≤◌, List, [], ◌∷◌, ◌≡◌, refl, ◌∙◌, arith, inl, inr, Bool-cases, if◌then◌else◌,
  leb,
}
use pdai_server_panel.Caddy.ConfigFile.{
  File, is_backup, count_backups, remove_backups, cleanup_backups,
}

-- The files that are not backups.
unfoldable pub other_files : List File → List File
other_files [] = []
other_files (f ∷ fs) = let rest = other_files fs in if is_backup f then rest else f ∷ rest

-- The backups, in the order of their names.
unfoldable pub backups_of : List File → List File
backups_of [] = []
backups_of (f ∷ fs) = let rest = backups_of fs in if is_backup f then f ∷ rest else rest

unfoldable pub drop_files : ℕ → List File → List File
drop_files zero fs = fs
drop_files (suc n) [] = []
drop_files (suc n) (f ∷ fs) = drop_files n fs

count-remove_backups :
    (n : ℕ) (fs : List File) → count_backups (remove_backups n fs) ≡ count_backups fs - n
unfolding count_backups remove_backups
count-remove_backups zero fs = ground arith
count-remove_backups (suc n) [] = ground arith
count-remove_backups (suc n) (f ∷ fs) = elim (Bool-cases (is_backup f)) [
  | inl e ↦ rw e (count-remove_backups n fs ∙ ground arith)
  | inr e ↦ rw (e, e) (count-remove_backups (suc n) fs)
]

other_files-remove_backups :
    (n : ℕ) (fs : List File) → other_files (remove_backups n fs) ≡ other_files fs
unfolding other_files remove_backups
other_files-remove_backups zero fs = refl
other_files-remove_backups (suc n) [] = refl
other_files-remove_backups (suc n) (f ∷ fs) = elim (Bool-cases (is_backup f)) [
  | inl e ↦ rw e (other_files-remove_backups n fs)
  | inr e ↦ rw (e, e) (rw (other_files-remove_backups (suc n) fs) refl)
]

backups_of-remove_backups :
    (n : ℕ) (fs : List File) → backups_of (remove_backups n fs) ≡ drop_files n (backups_of fs)
unfolding backups_of remove_backups drop_files
backups_of-remove_backups zero fs = refl
backups_of-remove_backups (suc n) [] = refl
backups_of-remove_backups (suc n) (f ∷ fs) = elim (Bool-cases (is_backup f)) [
  | inl e ↦ rw e (backups_of-remove_backups n fs)
  | inr e ↦ rw (e, e) (backups_of-remove_backups (suc n) fs)
]

-- After a cleanup at most `keep` backups are left, those with the last names; a directory that has no
-- more of them is left as it is, and every other file stays.
pub cleanup_backups-bound :
    (keep : ℕ) (fs : List File)
    → (count_backups (cleanup_backups keep fs) ≤ keep)
      × (backups_of (cleanup_backups keep fs)
          ≡ drop_files (count_backups fs - keep) (backups_of fs))
      × (other_files (cleanup_backups keep fs) ≡ other_files fs)
unfolding cleanup_backups drop_files
cleanup_backups-bound keep fs = elim (Bool-cases (leb (count_backups fs) keep)) [
  | inl e ↦
      let none_over : count_backups fs - keep ≡ 0 = ground (arith, e) in
      rw (e, none_over) ((ground (arith, e), refl, refl))
  | inr e ↦ rw e (
      (
        ground (arith, count-remove_backups (count_backups fs - keep) fs),
        backups_of-remove_backups (count_backups fs - keep) fs,
        other_files-remove_backups (count_backups fs - keep) fs,
      ))
]
