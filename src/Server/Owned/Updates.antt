-- ===== src/Server/Owned/Updates.antt =====
-- The registry when the identity of a tab is verified (src/server.ts, step 8.post2).
use safari_pilot.Server.{Env, Server, ToolResponse, done}
use safari_pilot.Server.Ownership.{tab_url_of}
use safari_pilot.Server.Aftermath.{update_registry, backfill, verify_identity, meta_tab}
use safari_pilot.Prelude.{
  ℕ, String, ◌==◌, ◌≡◌, false, some, ◌⊎◌, string_eq, none, refl, true, arith, Option, or_default,
  inl, inr, ◌∙◌, subst, Bool-cases, if◌then◌else◌, Option-cases,
}
use safari_pilot.Params.{Params, as_text}
use safari_pilot.Server.Registry.{
  refresh_url, register_new_tab, remove_closed_tab, truthy, adopt_window, register_new,
  is_navigation,
}
use safari_pilot.Security.TabOwnership.{
  TabOwnership, TabId, find_by_extension_tab_id, find_by_url, set_extension_tab_id,
}
use safari_pilot.Prelude.Dict.{get}

register_new-proxy :
    (url : Option String) (window index : Option ℕ) (s : Server)
    → (register_new url window index s).engine_proxy ≡ s.engine_proxy
unfolding register_new
register_new-proxy none window index s = refl
register_new-proxy (some url) window index s = refl

adopt_window-proxy :
    (env : Env) (window : Option ℕ) (s : Server)
    → (adopt_window env window s).engine_proxy ≡ s.engine_proxy
unfolding adopt_window
adopt_window-proxy env window s =
    ground (arith, Option-cases env.front_window, Option-cases s.session_window_id)

refresh_url-proxy :
    (env : Env) (name : String) (params : Params) (r : ToolResponse) (s : Server)
    → (refresh_url env name params r s).engine_proxy ≡ s.engine_proxy
unfolding refresh_url
refresh_url-proxy env name params r s = elim (Bool-cases (is_navigation name)) [
  | inl e ↦ rw e refl
  | inr e ↦ rw e refl
]

remove_closed_tab-proxy :
    (env : Env) (name : String) (params : Params) (r : ToolResponse) (s : Server)
    → (remove_closed_tab env name params r s).engine_proxy ≡ s.engine_proxy
unfolding remove_closed_tab
remove_closed_tab-proxy env name params r s = ground arith

register_new_tab-proxy :
    (env : Env) (name : String) (r : ToolResponse) (s : Server)
    → (register_new_tab env name r s).engine_proxy ≡ s.engine_proxy
unfolding register_new_tab
register_new_tab-proxy env name r s =
    ground (arith, adopt_window-proxy env _ _, register_new-proxy _ _ _ s)

pub update_registry-proxy :
    (env : Env) (name : String) (params : Params) (r : ToolResponse) (s : Server)
    → (update_registry env name params r s).engine_proxy ≡ s.engine_proxy
unfolding update_registry
update_registry-proxy env name params r s =
    let refreshed = refresh_url env name params r s in
    remove_closed_tab-proxy env name params r (register_new_tab env name r refreshed)
    ∙ register_new_tab-proxy env name r refreshed
    ∙ refresh_url-proxy env name params r s

-- The registry has an entry with the stable id, or one at the URL.
abbrev pub Owns : ℕ → String → TabOwnership → Type 0
Owns ext url tabs =
    ((id : TabId) × (find_by_extension_tab_id ext tabs ≡ some id))
    ⊎ ((id : TabId) × (find_by_url url tabs ≡ some id))

backfill-Owns :
    (params : Params) (ext : ℕ) (tabs : TabOwnership) (id : TabId)
    → find_by_extension_tab_id ext (backfill (truthy (as_text (get "tabUrl" params))) ext tabs)
      ≡ some id
    → (tab_url_of params == "") ≡ false
    → Owns ext (tab_url_of params) tabs
backfill-Owns params ext tabs id h filled = go (as_text (get "tabUrl" params)) h filled
  where
    go :
        (o : Option String)
        → find_by_extension_tab_id ext (backfill (truthy o) ext tabs) ≡ some id
        → (or_default o "" == "") ≡ false
        → Owns ext (or_default o "") tabs
    go none e k = absurd (ground arith)
    go (some url) e k = known (find_by_url url tabs) refl (
        subst
          (λ b.
            find_by_extension_tab_id ext (backfill (if b then none else some url) ext tabs)
            ≡ some id)
          k e)
      where
        known :
            (o : Option TabId)
            → find_by_url url tabs ≡ o
            → find_by_extension_tab_id ext
                (elim o [ none ↦ tabs | some i ↦ set_extension_tab_id i ext tabs ])
              ≡ some id
            → Owns ext url tabs
        known none e f = inl (id, f)
        known (some i) e f = inr (i, e)

pub verify_identity-Owns :
    (params : Params) (s t : Server)
    → verify_identity params true s ≡ (done tt, t)
    → (tab_url_of params == "") ≡ false
    → (ext : ℕ) × (meta_tab s.engine_proxy.last_meta ≡ some ext)
      × Owns ext (tab_url_of params) s.tab_ownership
unfolding verify_identity
verify_identity-Owns params s t h filled = go (meta_tab s.engine_proxy.last_meta) refl
  where
    go :
        (seen : Option ℕ)
        → meta_tab s.engine_proxy.last_meta ≡ seen
        → (ext : ℕ) × (meta_tab s.engine_proxy.last_meta ≡ some ext)
          × Owns ext (tab_url_of params) s.tab_ownership
    go none e = absurd (ground (arith, e))
    go (some ext) e =
        let tabs = backfill (truthy (as_text (get "tabUrl" params))) ext s.tab_ownership in
        elim (Option-cases (find_by_extension_tab_id ext tabs)) [
          | inl missing ↦ absurd (ground (arith, e, missing))
          | inr (id, found) ↦ (ext, e, backfill-Owns params ext s.tab_ownership id found filled)
        ]
