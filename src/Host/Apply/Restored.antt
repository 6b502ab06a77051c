-- ===== src/Host/Apply/Restored.antt =====
-- The Caddyfile after a refused configuration.
use pdai_server_panel.Common.{
  ℕ, true, false, ◌&&◌, not, Option, none, some, List, ◌≡◌, ◌⊎◌, refl, ◌∙◌, arith, inl, inr,
  Bool-cases, null, ℤ,
}
use pdai_server_panel.Text.{Text}
use pdai_server_panel.Model.{Host, Certificate, DnsProvider}
use pdai_server_panel.Caddy.ConfigFile.{
  CaddyFiles, Disk, WriteError, get_caddyfile_content, write_caddyfile,
}
use pdai_server_panel.Host.Apply.{
  Server, ApplyError, roll_back, reload_after, apply_content, apply_config, caddyfile,
}

-- A disk on which a text can be written.
pub record Takes (disk : Disk) (t : Text) : Type 0 where
  pub writes : disk.write_ok ≡ true
  pub accepts : disk.caddy_found ≡ true → disk.is_valid t ≡ true
  pub renames : disk.rename_ok ≡ true

write_caddyfile-Takes :
    (disk : Disk) (t : Text) (files : CaddyFiles)
    → Takes disk t
    → (write_caddyfile disk t files).0.current ≡ some t
unfolding write_caddyfile
write_caddyfile-Takes disk t files k = elim (Bool-cases disk.caddy_found) [
  | inl e ↦ rw (k.writes, k.renames, e, k.accepts e) refl
  | inr e ↦ rw (k.writes, k.renames, e) refl
]

-- A write that fails leaves the Caddyfile.
write_caddyfile-failed :
    (disk : Disk) (t : Text) (files : CaddyFiles)
    → ((write_caddyfile disk t files).1 ≡ none)
      ⊎ ((write_caddyfile disk t files).0.current ≡ files.current)
unfolding write_caddyfile
write_caddyfile-failed disk t files = elim (Bool-cases disk.write_ok) [
  | inr e ↦ rw e (inr refl)
  | inl e ↦ elim (Bool-cases (disk.caddy_found && not (disk.is_valid t))) [
    | inl f ↦ rw (e, f) (inr refl)
    | inr f ↦ elim (Bool-cases disk.rename_ok) [
      | inr g ↦ rw (e, f, g) (inr refl)
      | inl g ↦ rw (e, f, g) (inl refl)
    ]
  ]
]

-- What a configuration leaves, when it is refused.
abbrev Restores : Text → CaddyFiles × Option ApplyError → Type 0
Restores old r = (r.1 ≡ none) ⊎ (r.0.current ≡ some old)

roll_back-restored :
    (disk : Disk) (old : Text) (files : CaddyFiles)
    → null old ≡ false
    → Takes disk old
    → (roll_back disk old files).current ≡ some old
roll_back-restored disk old files n k = rw n (write_caddyfile-Takes disk old files k)

reload_after-Restores :
    (server : Server) (second : Disk) (old : Text) (r : CaddyFiles × Option WriteError)
    → null old ≡ false
    → Takes second old
    → (r.1 ≡ none) ⊎ (r.0.current ≡ some old)
    → Restores old (reload_after server second old r)
reload_after-Restores server second old (files, some e) n k (inl x) = absurd (ground (arith, x))
reload_after-Restores server second old (files, some e) n k (inr x) = inr x
reload_after-Restores server second old (files, none) n k x =
    elim (Bool-cases (server.auto_reload && server.running && not server.reload_ok)) [
      | inl e ↦ rw e (inr (roll_back-restored second old files n k))
      | inr e ↦ rw e (inl refl)
    ]

module _ (sort : (A : Type 0) → (A → ℤ) → List A → List A) (wide : ℕ → ℕ)
    (parse_json : Text → Option (Text → Text)) (log_dir now : Text) where
  -- When the old Caddyfile is not empty and could be written again, a configuration that is refused,
  -- by caddy or by the disk, leaves the old Caddyfile.
  pub apply_config-restored :
      (server : Server) (first second : Disk) (certs : List Certificate)
      (providers : List DnsProvider) (hosts : List Host) (files : CaddyFiles) (old : Text)
      (e : ApplyError)
      → files.current ≡ some old
      → null old ≡ false
      → Takes second old
      → (apply_config sort wide parse_json log_dir now server first second certs providers hosts
          files).1
        ≡ some e
      → (apply_config sort wide parse_json log_dir now server first second certs providers hosts
          files).0.current
        ≡ some old
  unfolding apply_config apply_content
  apply_config-restored server first second certs providers hosts files old e c n k =
      refused
        (reload_after server second (get_caddyfile_content files)
          (write_caddyfile first content files))
        (rw (← content_of files c) (
          reload_after-Restores server second old (write_caddyfile first content files) n k
            (written (write_caddyfile-failed first content files))))
    where
      content : Text
      content = caddyfile sort wide parse_json log_dir now certs providers hosts

      content_of : (f : CaddyFiles) → f.current ≡ some old → old ≡ get_caddyfile_content f
      content_of f h = rw h refl

      written :
          ((write_caddyfile first content files).1 ≡ none)
            ⊎ ((write_caddyfile first content files).0.current ≡ files.current)
          → ((write_caddyfile first content files).1 ≡ none)
            ⊎ ((write_caddyfile first content files).0.current ≡ some old)
      written (inl x) = inl x
      written (inr x) = inr (x ∙ c)

      refused :
          (r : CaddyFiles × Option ApplyError)
          → Restores old r
          → r.1 ≡ some e
          → r.0.current ≡ some old
      refused r (inl x) h = absurd (ground (arith, x, h))
      refused r (inr x) h = x
