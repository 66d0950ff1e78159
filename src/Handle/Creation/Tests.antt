-- ===== src/Handle/Creation/Tests.antt =====
-- handle.go: `NewHandle` with concrete answers of libddwaf, and the witnesses of its theorems.
use go_libddwaf.Base.{true, [], leb}
use go_libddwaf.WafObject.{WafObject, zero_object, waf_map_type}
use go_libddwaf.GoValue.{GoValue, no_entries}
use go_libddwaf.Handle.Creation.{World, InitAnswer, create_handle}
use go_libddwaf.Handle.Creation.Laws.{Owned, create_handle-Owned}

-- ddwaf_init makes instance 9 and reports `info`.
abbrev answer : WafObject → InitAnswer
answer info = record { c_handle = 9; info = info; memory = [] }

abbrev world : World
world = record {
  heap = λ a. GoValue.invalid;
  stray = 0;
  done = leb 5;
  depth_fuel = 6;
  waf_init = λ o config m. answer (record zero_object { type = waf_map_type });
  waf_update = λ c o m. answer zero_object;
}

abbrev no_rules : GoValue
no_rules = GoValue.dict no_entries

create_handle-Owned_example : Owned (create_handle world [] (true, []) no_rules [] [])
create_handle-Owned_example = create_handle-Owned world [] (true, []) no_rules [] []
