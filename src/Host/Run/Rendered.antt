-- ===== src/Host/Run/Rendered.antt =====
-- The Caddyfile after any calls.
use mathlib.Core.List.{map}
use pdai_server_panel.Common.{
  ℕ, true, Option, none, some, List, [], ◌∷◌, ◌≡◌, ◌==◌, refl, inl, inr, All, In, any, Bool-cases,
}
use pdai_server_panel.Text.{Text, text_eq}
use pdai_server_panel.Model.{Host, HostDomain}
use pdai_server_panel.Caddy.Domain.{DomainError, validate_domain}
use pdai_server_panel.Caddy.Domain.Accepted.{IsDomain, validate_domain_iff}
use pdai_server_panel.Caddy.Render.Lines.{is_plain}
use pdai_server_panel.Host.Claim.Kept.{IsSound, join-IsSound}
use pdai_server_panel.Host.Checks.{Library}
use pdai_server_panel.Host.Clone.{cloned, clone_found, clone_validated, clone_host}
use pdai_server_panel.Host.Create.Made.{IsChecked, JoinsPlain, create-IsSound}
use pdai_server_panel.Host.Update.{find_host}
use pdai_server_panel.Host.Update.Inputs.{with_ids-plain}
use pdai_server_panel.Host.Update.Renderable.{
  Found, find_host-Found, replace-IsSound, update-IsSound,
}
use pdai_server_panel.Host.Import.Taken.{IsImportable, import_all-IsSound}
use pdai_server_panel.Caddy.Render.Sites.{IsRenderable}
use pdai_server_panel.Host.Run.{
  certified, certify_found, update_cert_paths, import_call, cert_call, toggled, toggle_found,
  toggle, remove, delete, Call, create_call, update_call, toggle_call, delete_call, clone_call,
  after_call, after_calls,
}

All-map :
    {A B : Type 0} (P : A → Type 0) (Q : B → Type 0) (f : A → B) (xs : List A)
    → ((x : A) → P x → Q (f x))
    → All P xs
    → All Q (map f xs)
All-map P Q f [] k h = tt
All-map P Q f (x ∷ xs) k (h, hs) = (k x h, All-map P Q f xs k hs)

-- Another state of a host's switch.
toggled-IsSound : (h : Host) → IsSound h → IsSound (toggled h)
toggled-IsSound h (r, s) = (
  record {
    domain = r.domain;
    others = r.others;
    cert = r.cert;
    key = r.key;
    redirect = r.redirect;
    root = r.root;
    index = r.index;
    fastcgi = r.fastcgi;
    error_pages = r.error_pages;
    origins = r.origins;
    methods = r.methods;
    headers = r.headers;
    addresses = r.addresses;
    paths = r.paths;
    custom = r.custom;
    ranges = r.ranges;
    auths = r.auths;
    directives = r.directives;
    full = r.full;
  },
  record { primary = s.primary; more = s.more },
)

pub certified-IsRenderable :
    (h : Host) (cert_path key_path : Text)
    → IsRenderable h
    → is_plain cert_path ≡ true
    → is_plain key_path ≡ true
    → IsRenderable (certified cert_path key_path h)
certified-IsRenderable h cert_path key_path r c k = record {
  domain = r.domain;
  others = r.others;
  cert = c;
  key = k;
  redirect = r.redirect;
  root = r.root;
  index = r.index;
  fastcgi = r.fastcgi;
  error_pages = r.error_pages;
  origins = r.origins;
  methods = r.methods;
  headers = r.headers;
  addresses = r.addresses;
  paths = r.paths;
  custom = r.custom;
  ranges = r.ranges;
  auths = r.auths;
  directives = r.directives;
  full = r.full;
}

remove-IsSound : (id : ℕ) (hosts : List Host) → All IsSound hosts → All IsSound (remove id hosts)
unfolding remove
remove-IsSound id [] a = tt
remove-IsSound id (h ∷ hs) (a, rest) = elim (Bool-cases (h.id == id)) [
  | inl e ↦ rw e (remove-IsSound id hs rest)
  | inr e ↦ rw e ((a, remove-IsSound id hs rest))
]

module _ (lib : Library) where
  cloned-IsSound :
      (id : ℕ) (d : Text) (h : Host) → IsDomain d → IsSound h → IsSound (cloned lib id d h)
  unfolding cloned
  cloned-IsSound id d h v (r, s) = (
    record {
      domain = v;
      others = tt;
      cert = r.cert;
      key = r.key;
      redirect = r.redirect;
      root = r.root;
      index = r.index;
      fastcgi = r.fastcgi;
      error_pages = r.error_pages;
      origins = r.origins;
      methods = r.methods;
      headers = r.headers;
      addresses = with_ids-plain lib 0 _ (All-map _ _ _ h.upstreams (λ u k. k) r.addresses);
      paths = All-map _ _ _ h.routes (λ x k. k) r.paths;
      custom = All-map _ _ _ h.custom_headers (λ x k. k) r.custom;
      ranges = All-map _ _ _ h.access_rules (λ x k. k) r.ranges;
      auths = All-map _ _ _ h.basic_auths (λ x k. k) r.auths;
      directives = r.directives;
      full = r.full;
    },
    record { primary = v; more = tt },
  )

  toggle-IsSound :
      (id : ℕ) (hosts : List Host) → All IsSound hosts → All IsSound (toggle lib id hosts).0
  unfolding toggle
  toggle-IsSound id hosts a = go (find_host id hosts) (find_host-Found IsSound id hosts a)
    where
      go : (o : Option Host) → Found IsSound id o → All IsSound (toggle_found lib hosts o).0
      go none f = a
      go (some h) (s, e) = replace-IsSound (toggled h) hosts (toggled-IsSound h s) a

  update_cert_paths-IsSound :
      (id : ℕ) (cert_path key_path : Text) (hosts : List Host)
      → is_plain cert_path ≡ true
      → is_plain key_path ≡ true
      → All IsSound hosts
      → All IsSound (update_cert_paths lib id cert_path key_path hosts).0
  unfolding update_cert_paths
  update_cert_paths-IsSound id cert_path key_path hosts c k a =
      go (find_host id hosts) (find_host-Found IsSound id hosts a)
    where
      go :
          (o : Option Host)
          → Found IsSound id o
          → All IsSound (certify_found lib cert_path key_path hosts o).0
      go none f = a
      go (some h) ((r, s), e) =
          replace-IsSound (certified cert_path key_path h) hosts
            (
              certified-IsRenderable h cert_path key_path r c k,
              record { primary = s.primary; more = s.more },
            )
            a

  delete-IsSound :
      (id : ℕ) (hosts : List Host) → All IsSound hosts → All IsSound (delete lib id hosts).0
  unfolding delete
  delete-IsSound id hosts a = elim (Bool-cases (any (λ (h : Host). h.id == id) hosts)) [
    | inl e ↦ rw e (remove-IsSound id hosts a)
    | inr e ↦ rw e a
  ]

  clone_host-IsSound :
      (id : ℕ) (d : Text) (hosts : List Host)
      → All IsSound hosts
      → All IsSound (clone_host lib id d hosts).0
  unfolding clone_host
  clone_host-IsSound id d hosts a = go (validate_domain d) refl
    where
      find :
          (o : Option Host)
          → IsDomain d
          → Found IsSound id o
          → All IsSound (clone_found lib d hosts o).0
      find none v f = a
      find (some h) v (s, e) = join-IsSound hosts _ a ((cloned-IsSound _ d h v s, tt))

      go :
          (o : Option DomainError)
          → validate_domain d ≡ o
          → All IsSound (clone_validated lib id d hosts o).0
      go (some e) k = a
      go none k = elim (Bool-cases (any (λ (h : Host). text_eq h.domain d) hosts)) [
        | inl e ↦ rw e a
        | inr e ↦ rw e (
            find (find_host id hosts) ((validate_domain_iff d).0 k)
              (find_host-Found IsSound id hosts a))
      ]

  -- A call must have checked what the code leaves unchecked.
  abbrev pub IsAllowed : Call → Type 0
  IsAllowed (create_call req) = IsChecked lib req
  IsAllowed (update_call id req) = Unit
  IsAllowed (toggle_call id) = Unit
  IsAllowed (delete_call id) = Unit
  IsAllowed (clone_call id d) = Unit
  IsAllowed (import_call data_hosts) = All IsImportable data_hosts
  IsAllowed (cert_call id cert_path key_path) =
      (is_plain cert_path ≡ true) × (is_plain key_path ≡ true)

  module _ (plain_hash : (p h : Text) → lib.hash_password p ≡ some h → is_plain h ≡ true)
      (keeps : (ds : List HostDomain) (d : HostDomain) → In d (lib.order_domains ds) → In d ds)
      (joins : JoinsPlain lib) where
    after_call-IsSound :
        (c : Call) (hosts : List Host)
        → IsAllowed c
        → All IsSound hosts
        → All IsSound (after_call lib c hosts)
    unfolding after_call
    after_call-IsSound (create_call req) hosts k a =
        create-IsSound lib plain_hash keeps joins req hosts k a
    after_call-IsSound (update_call id req) hosts k a =
        update-IsSound lib plain_hash keeps id req hosts a
    after_call-IsSound (toggle_call id) hosts k a = toggle-IsSound id hosts a
    after_call-IsSound (delete_call id) hosts k a = delete-IsSound id hosts a
    after_call-IsSound (clone_call id d) hosts k a = clone_host-IsSound id d hosts a
    after_call-IsSound (import_call data_hosts) hosts k a =
        import_all-IsSound lib data_hosts hosts k a
    after_call-IsSound (cert_call id cert_path key_path) hosts k a =
        update_cert_paths-IsSound id cert_path key_path hosts k.0 k.1 a

    pub after_calls-IsSound :
        (cs : List Call) (hosts : List Host)
        → All IsAllowed cs
        → All IsSound hosts
        → All IsSound (after_calls lib cs hosts)
    unfolding after_calls
    after_calls-IsSound [] hosts k a = a
    after_calls-IsSound (c ∷ cs) hosts (k, ks) a =
        after_calls-IsSound cs (after_call lib c hosts) ks (after_call-IsSound c hosts k a)
