-- ===== src/Host/Run.antt =====
-- internal/service/host.go, `Delete`, `Toggle` and `UpdateCertPaths`, and the calls that change the
-- hosts, one after the other.
pub mod Rendered
pub mod Configured
use pdai_server_panel.Common.{
  ℕ, Bool, true, false, not, Option, none, some, List, [], ◌∷◌, ◌==◌, if◌then◌else◌, any, Result,
  ok, err,
}
use pdai_server_panel.Text.{Text}
use pdai_server_panel.Model.{Host}
use pdai_server_panel.Host.Request.{HostCreateRequest, bool_val}
use pdai_server_panel.Host.Checks.{Library, HostError, not_found, config_failed}
use pdai_server_panel.Host.Update.{find_host, saved, update}
use pdai_server_panel.Host.Create.{create}
use pdai_server_panel.Host.Clone.{clone_host}
use pdai_server_panel.Host.Import.{import_all}

abbrev pub toggled : Host → Host
toggled h = record h { enabled = some (not (bool_val h.enabled)) }

abbrev pub toggle_found : Library → List Host → Option Host → List Host × Result HostError Host
toggle_found lib hosts none = (hosts, err not_found)
toggle_found lib hosts (some h) = saved lib (toggled h) hosts

unfoldable pub toggle : Library → ℕ → List Host → List Host × Result HostError Host
toggle lib id hosts = toggle_found lib hosts (find_host id hosts)

-- What belongs to the host goes with it, by the cascade of the foreign keys of its rows.
unfoldable pub remove : ℕ → List Host → List Host
remove id [] = []
remove id (h ∷ hs) = let rest = remove id hs in if h.id == id then rest else h ∷ rest

unfoldable pub delete : Library → ℕ → List Host → List Host × Option HostError
delete lib id hosts =
    if not (any (λ (h : Host). h.id == id) hosts)
    then (hosts, some not_found)
    else (remove id hosts, if lib.apply_ok then none else some config_failed)

abbrev pub certified : Text → Text → Host → Host
certified cert_path key_path h = record h {
  custom_cert_path = cert_path;
  custom_key_path = key_path;
}

abbrev pub certify_found :
    Library → Text → Text → List Host → Option Host → List Host × Result HostError Host
certify_found lib cert_path key_path hosts none = (hosts, err not_found)
certify_found lib cert_path key_path hosts (some h) =
    saved lib (certified cert_path key_path h) hosts

-- The paths are not checked.
unfoldable pub update_cert_paths :
    Library → ℕ → Text → Text → List Host → List Host × Result HostError Host
update_cert_paths lib id cert_path key_path hosts =
    certify_found lib cert_path key_path hosts (find_host id hosts)

pub data Call : Type 0 where
  create_call : HostCreateRequest → Call
  update_call : ℕ → HostCreateRequest → Call
  toggle_call delete_call : ℕ → Call
  clone_call : ℕ → Text → Call
  import_call : List Host → Call
  cert_call : ℕ → Text → Text → Call

-- The hosts after a call.
unfoldable pub after_call : Library → Call → List Host → List Host
after_call lib (create_call req) hosts = (create lib req hosts).0
after_call lib (update_call id req) hosts = (update lib id req hosts).0
after_call lib (toggle_call id) hosts = (toggle lib id hosts).0
after_call lib (delete_call id) hosts = (delete lib id hosts).0
after_call lib (clone_call id domain) hosts = (clone_host lib id domain hosts).0
after_call lib (import_call data_hosts) hosts = (import_all lib data_hosts hosts).0
after_call lib (cert_call id cert_path key_path) hosts =
    (update_cert_paths lib id cert_path key_path hosts).0

unfoldable pub after_calls : Library → List Call → List Host → List Host
after_calls lib [] hosts = hosts
after_calls lib (c ∷ cs) hosts = after_calls lib cs (after_call lib c hosts)
