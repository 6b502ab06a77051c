-- ===== src/Caddy/ConfigFile.antt =====
-- internal/caddy/manager.go, `WriteCaddyfile`, `cleanupBackups` and `GetCaddyfileContent`. The
-- directory of the backups is the list of its files, in the order of their names as os.ReadDir gives
-- it. `Disk` is what the system answers: whether the new file can be written and renamed, whether
-- caddy is found and accepts a file, and the time in a backup's name. Writing and removing backups
-- succeeds.
pub mod Kept
use pdai_server_panel.Common.{
  ℕ, zero, suc, ◌-◌, Bool, true, false, ◌&&◌, ◌||◌, not, Option, none, some, List, [], ◌∷◌, ◌++◌,
  ◌==◌, if◌then◌else◌, ltb, leb,
}
use pdai_server_panel.Text.{Text, codes, text_eq, has_prefix, has_suffix}

pub record File : Type 0 where
  pub name : Text
  pub content : Text

pub record CaddyFiles : Type 0 where
  pub current : Option Text
  pub temp : Option Text
  pub backups : List File

pub record Disk : Type 0 where
  pub write_ok : Bool
  pub caddy_found : Bool
  pub is_valid : Text → Bool
  pub rename_ok : Bool
  pub stamp : Text

pub data WriteError : Type 0 where
  write_failed invalid_caddyfile rename_failed : WriteError

-- The order of names, by their characters.
unfoldable pub name_below : Text → Text → Bool
name_below s [] = false
name_below [] (d ∷ t) = true
name_below (c ∷ s) (d ∷ t) = let rest = name_below s t in ltb c d || (c == d && rest)

-- os.WriteFile in the directory
unfoldable pub put_file : File → List File → List File
put_file f [] = f ∷ []
put_file f (g ∷ gs) =
    let rest = put_file f gs in
    if text_eq f.name g.name
    then f ∷ gs
    else if name_below f.name g.name
    then f ∷ g ∷ gs
    else g ∷ rest

abbrev pub is_backup : File → Bool
is_backup f = has_prefix f.name (codes "Caddyfile.") && has_suffix f.name (codes ".bak")

unfoldable pub count_backups : List File → ℕ
count_backups [] = 0
count_backups (f ∷ fs) = if is_backup f then suc (count_backups fs) else count_backups fs

-- The first `n` backups are removed.
unfoldable pub remove_backups : ℕ → List File → List File
remove_backups zero fs = fs
remove_backups (suc n) [] = []
remove_backups (suc n) (f ∷ fs) =
    if is_backup f then remove_backups n fs else f ∷ remove_backups (suc n) fs

unfoldable pub cleanup_backups : ℕ → List File → List File
cleanup_backups keep fs =
    if leb (count_backups fs) keep then fs else remove_backups (count_backups fs - keep) fs

-- A current file is copied to the backups; the last ten are kept.
abbrev pub backed_up : Text → Option Text → List File → List File
backed_up stamp none fs = fs
backed_up stamp (some old) fs =
    cleanup_backups 10
      (put_file (record { name = codes "Caddyfile." ++ (stamp ++ codes ".bak"); content = old }) fs)

unfoldable pub write_caddyfile : Disk → Text → CaddyFiles → CaddyFiles × Option WriteError
write_caddyfile disk content files =
    let backups = backed_up disk.stamp files.current files.backups in
    if not disk.write_ok
    then (files, some write_failed)
    else if disk.caddy_found && not (disk.is_valid content)
    then (record files { temp = none }, some invalid_caddyfile)
    else if not disk.rename_ok
    then (record files { temp = some content; backups = backups }, some rename_failed)
    else (record { current = some content; temp = none; backups = backups }, none)

-- An unreadable file reads as the empty text.
abbrev pub get_caddyfile_content : CaddyFiles → Text
get_caddyfile_content files = elim files.current [ none ↦ [] | some t ↦ t ]
