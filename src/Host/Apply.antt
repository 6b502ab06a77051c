-- ===== src/Host/Apply.antt =====
-- internal/service/host.go, `ApplyConfig`: the certificates of the hosts, the new Caddyfile, and the
-- old one when caddy does not take the new one. `Server` is what the settings and the process
-- answer; a failed start is only logged, and so is a failed rollback.
pub mod Restored
use mathlib.Core.List.{map}
use pdai_server_panel.Common.{
  ℕ, zero, suc, Bool, true, false, ◌&&◌, not, Option, none, some, List, [], ◌∷◌, ◌==◌,
  if◌then◌else◌, null, ℤ,
}
use pdai_server_panel.Text.{Text}
use pdai_server_panel.Model.{Host, Certificate, DnsProvider}
use pdai_server_panel.Caddy.Render.{render_caddyfile}
use pdai_server_panel.Caddy.ConfigFile.{
  CaddyFiles, Disk, WriteError, get_caddyfile_content, write_caddyfile,
}

-- `certMap[id]`: the last one with the id
unfoldable pub find_certificate : ℕ → List Certificate → Option Certificate
find_certificate id [] = none
find_certificate id (c ∷ cs) = elim (find_certificate id cs) [
  | some d ↦ some d
  | none ↦ if c.id == id then some c else none
]

abbrev pub with_certificate : Host → Option Certificate → Host
with_certificate h none = h
with_certificate h (some c) = record h {
  custom_cert_path = c.cert_path;
  custom_key_path = c.key_path;
}

abbrev pub certificate_of : List Certificate → Option ℕ → Option Certificate
certificate_of certs none = none
certificate_of certs (some zero) = none
certificate_of certs (some (suc id)) = find_certificate (suc id) certs

unfoldable pub resolve_certificate : List Certificate → Host → Host
resolve_certificate certs h = with_certificate h (certificate_of certs h.certificate_id)

-- `dnsMap[id]`
unfoldable pub find_provider : List DnsProvider → ℕ → Option DnsProvider
find_provider [] id = none
find_provider (p ∷ ps) id = elim (find_provider ps id) [
  | some q ↦ some q
  | none ↦ if p.id == id then some p else none
]

pub record Server : Type 0 where
  pub auto_reload : Bool
  pub running : Bool
  pub reload_ok : Bool

pub data ApplyError : Type 0 where
  not_written : WriteError → ApplyError
  not_reloaded : ApplyError

-- The old Caddyfile, unless it was empty or could not be read, is written again.
abbrev pub roll_back : Disk → Text → CaddyFiles → CaddyFiles
roll_back disk old files = if null old then files else (write_caddyfile disk old files).0

abbrev pub reload_after :
    Server → Disk → Text → CaddyFiles × Option WriteError → CaddyFiles × Option ApplyError
reload_after server second old (files, some e) = (files, some (not_written e))
reload_after server second old (files, none) =
    if server.auto_reload && server.running && not server.reload_ok
    then (roll_back second old files, some not_reloaded)
    else (files, none)

-- `first` and `second` are the disk at the two times that the Caddyfile is written.
unfoldable pub apply_content :
    Server → Disk → Disk → Text → CaddyFiles → CaddyFiles × Option ApplyError
apply_content server first second content files =
    reload_after server second (get_caddyfile_content files) (write_caddyfile first content files)

module _ (sort : (A : Type 0) → (A → ℤ) → List A → List A) (wide : ℕ → ℕ)
    (parse_json : Text → Option (Text → Text)) (log_dir now : Text) where
  unfoldable pub caddyfile : List Certificate → List DnsProvider → List Host → Text
  caddyfile certs providers hosts =
      render_caddyfile sort wide parse_json log_dir (find_provider providers) now
        (map (resolve_certificate certs) hosts)

  unfoldable pub apply_config :
      Server
      → Disk
      → Disk
      → List Certificate
      → List DnsProvider
      → List Host
      → CaddyFiles
      → CaddyFiles × Option ApplyError
  apply_config server first second certs providers hosts files =
      apply_content server first second (caddyfile certs providers hosts) files
