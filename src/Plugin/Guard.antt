-- ===== src/Plugin/Guard.antt =====
-- internal/plugin/manager.go, `PluginGuardMiddleware` and `extractPluginID`. A path is given by the
-- pieces that strings.Split makes of it at its slashes, the leading one taken off.
pub mod Blocks
use pdai_server_panel.Common.{
  String, Bool, true, false, ◌||◌, ◌&&◌, not, List, [], ◌∷◌, if◌then◌else◌, ◌=ˢ◌, lookup, is_some,
}
use pdai_server_panel.Plugin.Manager.{Manager}

-- The third piece belongs to the management of plugins.
abbrev pub is_management : List String → Bool
is_management [] = false
is_management (p ∷ rest) = p =ˢ "enable" || p =ˢ "disable" || p =ˢ "sidebar" || p =ˢ "install"

unfoldable pub extract_plugin_id : List String → String
extract_plugin_id [] = ""
extract_plugin_id (p ∷ []) = ""
extract_plugin_id (p ∷ id ∷ rest) =
    let later = extract_plugin_id (id ∷ rest) in
    if not (p =ˢ "plugins")
    then later
    else if id =ˢ "frontend-manifests" || is_management rest
    then ""
    else id

-- Whether the request is answered 404 and goes no further.
unfoldable pub is_blocked : Manager → List String → Bool
is_blocked m parts =
    let plugin_id = extract_plugin_id parts in
    not (plugin_id =ˢ "") && is_some (lookup plugin_id m.disabled)
