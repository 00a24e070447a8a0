-- ===== src/Security/TabOwnership/Tests.antt =====
-- The registry at concrete tabs.
use safari_pilot.Prelude.{none, some}
use safari_pilot.Security.TabOwnership.{register_tab, TabOwnership, empty}
use safari_pilot.Prelude.Dict.{set}

abbrev two_tabs : TabOwnership
unfolding register_tab set
two_tabs =
    register_tab 1001 "https://b.org" none none none
      (register_tab 1000 "https://a.org/" none (some 1) (some 2) empty)
