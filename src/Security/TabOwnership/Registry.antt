-- ===== src/Security/TabOwnership/Registry.antt =====
-- What the registry promises: who gets into it, and what the searches find.
use safari_pilot.Security.TabOwnership.{
  TabOwnership, find_by_url, find_tab, set_extension_tab_id, update_url, make_tab_id,
  assert_ownership, TabId, ℕ, remove_tab, get_url, register_tab, ◌+◌, is_owned, strip_slash, at_url,
  OwnedTab,
}
use safari_pilot.Prelude.{
  ◌+◌, ◌<◌, ◌≡◌, arith, String, some, Option, if◌then◌else◌, none, ◌==◌, false, true, string_eq,
  Option-cases, inl, Bool, inr, ◌∷◌, is_some, nat_eq, eqb_iff, [], ◌≢◌, Bool-cases, eq_iff,
}
use safari_pilot.Errors.{ok}
use safari_pilot.Prelude.Dict.{
  get, get-delete, get-set_self, get-set, Dict, IsDistinct, set-IsDistinct, delete-IsDistinct, set,
}

-- The search finds only what passes the test, and misses only if nothing does.
find_tab-some :
    (p : OwnedTab → Bool) (tabs : Dict TabId OwnedTab) (id : TabId)
    → IsDistinct tabs
    → find_tab p tabs ≡ some id
    → (tab : OwnedTab) × (get id tabs ≡ some tab) × (p tab ≡ true)
unfolding find_tab get
find_tab-some p [] id d h = absurd (cc)
find_tab-some p ((j, tab) ∷ tabs) id d h = elim (Bool-cases (p tab)) [
  | inl here ↦ (tab, ground (arith, here, eqb_iff j id), here)
  | inr later ↦
      let (tab', found, passes) = find_tab-some p tabs id d.1 (ground (arith, later)) in
      (tab', ground (arith, d.0, found, eqb_iff j id), passes)
]

find_tab-none :
    (p : OwnedTab → Bool) (tabs : Dict TabId OwnedTab) (id : TabId) (tab : OwnedTab)
    → find_tab p tabs ≡ none
    → get id tabs ≡ some tab
    → p tab ≡ false
unfolding find_tab get
find_tab-none p [] id tab h e = cc
find_tab-none p ((j, tab') ∷ tabs) id tab h e = ground (arith, find_tab-none p tabs id tab)

-- The tab that a search by URL finds is owned and has the URL, and a search that finds nothing
-- means that no owned tab has it. URLs are compared up to one slash at the end.
find_by_url-exact :
    (url : String) (t : TabOwnership)
    → IsDistinct t.owned_tabs
    → ((id : TabId)
        → find_by_url url t ≡ some id
        → (u : String) × (get_url id t ≡ some u)
          × (strip_slash u ≡ strip_slash url)
          × (assert_ownership id t ≡ ok tt))
      × (find_by_url url t ≡ none
          → (id : TabId) (u : String) → get_url id t ≡ some u
          → strip_slash u ≢ strip_slash url)
unfolding find_by_url assert_ownership get_url
find_by_url-exact url t d = (
  λ id found.
      let (tab, here, same) = find_tab-some (at_url url) t.owned_tabs id d found in
      (
        tab.current_url,
        rw here,
        (eq_iff (strip_slash tab.current_url) (strip_slash url)).0 same,
        rw here,
      ),
  λ missing id u known. elim (Option-cases (get id t.owned_tabs)) [
    | inl absent ↦ absurd (ground (arith, absent))
    | inr (tab, here) ↦ λ same. ground (
      arith,
      here,
      known,
      same,
      find_tab-none (at_url url) t.owned_tabs id tab missing here,
      eq_iff (strip_slash tab.current_url) (strip_slash url),
    )
  ],
)

update_url-IsDistinct :
    (t : TabOwnership) (id : TabId) (url : String)
    → IsDistinct t.owned_tabs
    → IsDistinct (update_url id url t).owned_tabs
unfolding update_url
update_url-IsDistinct t id url d = elim (Option-cases (get id t.owned_tabs)) [
  | inl absent ↦ (let same : update_url id url t ≡ t = ground (arith, absent) in rw same d)
  | inr (tab, here) ↦
      (let tabs = set id (record tab { current_url = url }) t.owned_tabs in
        let same : update_url id url t ≡ record t { owned_tabs = tabs } = ground (arith, here) in
        rw same (set-IsDistinct id _ t.owned_tabs d))
]

set_extension_tab_id-IsDistinct :
    (t : TabOwnership) (id : TabId) (ext : ℕ)
    → IsDistinct t.owned_tabs
    → IsDistinct (set_extension_tab_id id ext t).owned_tabs
unfolding set_extension_tab_id
set_extension_tab_id-IsDistinct t id ext d = elim (Option-cases (get id t.owned_tabs)) [
  | inl absent ↦
      (let same : set_extension_tab_id id ext t ≡ t = ground (arith, absent) in rw same d)
  | inr (tab, here) ↦
      (let tabs = set id (record tab { extension_tab_id = some ext }) t.owned_tabs in
        elim (Bool-cases (is_some tab.extension_tab_id)) [
          | inl known ↦
              (let same : set_extension_tab_id id ext t ≡ t = ground (arith, here, known) in
                rw same d)
          | inr unknown ↦
              (let same : set_extension_tab_id id ext t ≡ record t { owned_tabs = tabs } =
                  ground (arith, here, unknown) in
                rw same (set-IsDistinct id _ t.owned_tabs d))
        ])
]

-- The registry holds a tab once, whatever is done to it.
pub operations-IsDistinct :
    (t : TabOwnership) (id : TabId) (url : String) (ext : ℕ) (e w i : Option ℕ)
    → IsDistinct t.owned_tabs
    → IsDistinct (register_tab id url e w i t).owned_tabs
      × IsDistinct (remove_tab id t).owned_tabs
      × IsDistinct (update_url id url t).owned_tabs
      × IsDistinct (set_extension_tab_id id ext t).owned_tabs
unfolding remove_tab register_tab
operations-IsDistinct t id url ext e w i d = (
  set-IsDistinct id _ t.owned_tabs d,
  delete-IsDistinct id t.owned_tabs d,
  update_url-IsDistinct t id url d,
  set_extension_tab_id-IsDistinct t id ext d,
)

-- Every operation but `register_tab` can only lose tabs, and `register_tab` adds only its own.
ownership_only_by_register :
    (t : TabOwnership) (id other : TabId) (url : String) (ext : ℕ) (e w i : Option ℕ)
    → (is_owned other (update_url id url t) ≡ is_owned other t)
      × (is_owned other (set_extension_tab_id id ext t) ≡ is_owned other t)
      × (is_owned other (remove_tab id t) ≡ (if id == other then false else is_owned other t))
      × (is_owned other (register_tab id url e w i t)
          ≡ (if id == other then true else is_owned other t))
unfolding update_url set_extension_tab_id remove_tab register_tab
ownership_only_by_register t id other url ext e w i = elim (Option-cases (get id t.owned_tabs)) [
  | inl absent ↦ (
    ground (arith, absent),
    ground (arith, absent),
    ground (arith, get-delete id other t.owned_tabs),
    ground (
      arith,
      get-set id other
          (record { current_url = url; extension_tab_id = e; window_id = w; tab_index = i })
          t.owned_tabs,
    ),
  )
  | inr (tab, here) ↦ (
    ground (
      arith,
      here,
      eqb_iff id other,
      get-set id other (record tab { current_url = url }) t.owned_tabs,
    ),
    ground (
      arith,
      here,
      eqb_iff id other,
      get-set id other (record tab { extension_tab_id = some ext }) t.owned_tabs,
    ),
    ground (arith, get-delete id other t.owned_tabs),
    ground (
      arith,
      get-set id other
          (record { current_url = url; extension_tab_id = e; window_id = w; tab_index = i })
          t.owned_tabs,
    ),
  )
]

-- The stable identity of a tab is written once: a later write changes nothing.
extension_tab_id_once :
    (t : TabOwnership) (id : TabId) (first second : ℕ)
    → set_extension_tab_id id second (set_extension_tab_id id first t)
      ≡ set_extension_tab_id id first t
unfolding set_extension_tab_id
extension_tab_id_once t id first second = elim (Option-cases (get id t.owned_tabs)) [
  | inl absent ↦ ground (arith, absent)
  | inr (tab, here) ↦
      ground
        (arith, here, get-set_self id (record tab { extension_tab_id = some first }) t.owned_tabs)
]

-- Synthetic ids are distinct while the tab index stays below 1000.
pub make_tab_id-injective :
    (w i w' i' : ℕ)
    → i < 1000
    → i' < 1000
    → make_tab_id w i ≡ make_tab_id w' i'
    → (w ≡ w') × (i ≡ i')
unfolding make_tab_id
make_tab_id-injective w i w' i' h h' e = omega arith

-- From the tab index 1000 on the synthetic ids of a window are those of the next window: two tabs
-- whose indices differ by 1000 in neighbouring windows get one id.
make_tab_id-collides : (w i : ℕ) → make_tab_id w (i + 1000) ≡ make_tab_id (w + 1) i
unfolding make_tab_id
make_tab_id-collides w i = omega arith
