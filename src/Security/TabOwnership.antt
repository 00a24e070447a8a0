-- ===== src/Security/TabOwnership.antt =====
-- src/security/tab-ownership.ts: the registry of the tabs that the agent opened.
pub mod Registry
mod Tests
use mathlib.Core.Option
use safari_pilot.Errors.{Result, ok, err, tab_not_owned}
use safari_pilot.Prelude.{
  Bool, List, Option, String, [], if◌then◌else◌, ℕ, none, length, ◌*◌, map, ◌+◌, ◌==◌, false, some,
  nat_eq, is_some, string_eq, ◌∷◌,
}
use safari_pilot.Prelude.Dict.{Dict, delete, get, set, has}
use safari_pilot.Text.{strip_slash}

abbrev pub TabId : Type 0
TabId = ℕ

pub record OwnedTab : Type 0 where
  pub current_url : String
  pub extension_tab_id : Option ℕ
  pub window_id : Option ℕ
  pub tab_index : Option ℕ

pub record TabOwnership : Type 0 where
  pub owned_tabs : Dict TabId OwnedTab

abbrev pub empty : TabOwnership
empty = record { owned_tabs = [] }

unfoldable pub make_tab_id : ℕ → ℕ → TabId
make_tab_id window_index tab_index = window_index * 1000 + tab_index

unfoldable pub register_tab :
    TabId → String → Option ℕ → Option ℕ → Option ℕ → TabOwnership → TabOwnership
register_tab tab_id url extension_tab_id window_id tab_index t = record t {
  owned_tabs =
      set tab_id
        (record {
          current_url = url;
          extension_tab_id = extension_tab_id;
          window_id = window_id;
          tab_index = tab_index;
        })
        t.owned_tabs;
}

unfoldable pub remove_tab : TabId → TabOwnership → TabOwnership
remove_tab tab_id t = record t { owned_tabs = delete tab_id t.owned_tabs }

-- The source writes into the object that the map holds.
unfoldable pub update_url : TabId → String → TabOwnership → TabOwnership
update_url tab_id new_url t = elim (get tab_id t.owned_tabs) [
  | none ↦ t
  | some entry ↦ record t {
    owned_tabs = set tab_id (record entry { current_url = new_url }) t.owned_tabs;
  }
]

unfoldable pub set_extension_tab_id : TabId → ℕ → TabOwnership → TabOwnership
set_extension_tab_id tab_id ext_tab_id t = elim (get tab_id t.owned_tabs) [
  | none ↦ t
  | some entry ↦ if is_some entry.extension_tab_id then t else record t {
    owned_tabs = set tab_id (record entry { extension_tab_id = some ext_tab_id }) t.owned_tabs;
  }
]

abbrev pub is_owned : TabId → TabOwnership → Bool
is_owned tab_id t = has tab_id t.owned_tabs

unfoldable pub get_url : TabId → TabOwnership → Option String
get_url tab_id t = Option.map (λ e. e.current_url) (get tab_id t.owned_tabs)

pub record Position : Type 0 where
  pub window_id : ℕ
  pub tab_index : ℕ

abbrev position_of : Option ℕ → Option ℕ → Option Position
position_of (some w) (some i) = some (record { window_id = w; tab_index = i })
position_of _ _ = none

unfoldable pub get_position : TabId → TabOwnership → Option Position
get_position tab_id t = elim (get tab_id t.owned_tabs) [
  | none ↦ none
  | some entry ↦ position_of entry.window_id entry.tab_index
]

-- The loop over the map in insertion order, with its early return.
unfoldable pub find_tab : (OwnedTab → Bool) → Dict TabId OwnedTab → Option TabId
find_tab p [] = none
find_tab p ((tab_id, tab) ∷ tabs) =
    let rest = find_tab p tabs in if p tab then some tab_id else rest

abbrev pub at_url : String → OwnedTab → Bool
at_url url tab = strip_slash tab.current_url == strip_slash url

unfoldable pub find_by_url : String → TabOwnership → Option TabId
find_by_url url t = find_tab (at_url url) t.owned_tabs

abbrev pub at_extension_tab : ℕ → OwnedTab → Bool
at_extension_tab ext_tab_id tab = elim tab.extension_tab_id [
  | none ↦ false
  | some n ↦ n == ext_tab_id
]

unfoldable pub find_by_extension_tab_id : ℕ → TabOwnership → Option TabId
find_by_extension_tab_id ext_tab_id t = find_tab (at_extension_tab ext_tab_id) t.owned_tabs

unfoldable pub get_owned_count : TabOwnership → ℕ
get_owned_count t = length t.owned_tabs

unfoldable pub get_all_owned : TabOwnership → List (TabId × String)
get_all_owned t = map (λ e. (e.0, e.1.current_url)) t.owned_tabs

unfoldable pub assert_ownership : TabId → TabOwnership → Result (Unit {0})
assert_ownership tab_id t = if is_owned tab_id t then ok tt else err (tab_not_owned tab_id)
