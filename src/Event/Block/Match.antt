-- ===== src/Event/Block/Match.antt =====
-- source/event.c: the search for the methods that handle the events of a block, _Lxx and _Exx.
use u_acpi.Base.{
  ℕ, ◌%◌, ◌^◌, ◌||◌, Option, none, some, ok, err, ◌==◌, if◌then◌else◌, List, [], ◌∷◌, get_or, drop,
}
use u_acpi.Text.Integer.{string_to_integer}
use u_acpi.Event.{
  EventHost, Platform, State, in_world, aml, type_none, type_aml, type_implicit, level_triggering,
  edge_triggering,
}
use u_acpi.Event.Store.{gpe_from_block, set_event_at}
use u_acpi.Event.Block.{update_block, release_implicit}

-- The name's triggering, if it is that of a handler's method.
unfoldable pub method_triggering : List ℕ → Option ℕ
method_triggering name =
    if get_or name 0 0 == b'_'
    then (if get_or name 1 0 == b'L'
        then some level_triggering
        else (if get_or name 1 0 == b'E' then some edge_triggering else none))
    else none

module _ {W : Type 0} (h : EventHost W) (p : Platform) where
  -- The switch on the handler's type: an event without a handler, or with an implicit one, gets the
  -- method.
  unfoldable pub assign_method : ℕ → ℕ → ℕ → ℕ → State W → State W
  unfolding set_event_at update_block
  assign_method block offset node triggering s =
      let b = s.block_at block in
      let event = b.events offset in
      let w =
        if event.handler_type == type_implicit
        then release_implicit h p event.any_handler s.world
        else s.world in
      let event' = record event {
        any_handler = aml node;
        handler_type = type_aml;
        triggering = triggering;
      } in
      if event.handler_type == type_implicit || event.handler_type == type_none
      then in_world (update_block s block (set_event_at b offset event')) w
      else s

  -- The iteration always continues; the count of matches is for the log.
  unfoldable pub do_match_gpe_methods : ℕ → ℕ → List ℕ → State W → State W
  unfolding method_triggering assign_method
  do_match_gpe_methods block node name s =
      let (ret, idx) = string_to_integer (drop 2 name) 16 in
      elim (method_triggering name) [
        | none ↦ s
        | some triggering ↦ elim ret [
          | err e ↦ s
          | ok ↦ elim (gpe_from_block (s.block_at block) (idx % 2 ^ 16)) [
            | none ↦ s
            | some offset ↦ assign_method block offset node triggering s
          ]
        ]
      ]

  unfoldable pub match_all : ℕ → List (ℕ × List ℕ) → State W → State W
  unfolding do_match_gpe_methods
  match_all block [] s = s
  match_all block ((node, name) ∷ ms) s =
      match_all block ms (do_match_gpe_methods block node name s)

  unfoldable pub match_block : ℕ → State W → State W
  unfolding match_all
  match_block block s =
      let (methods, w) = h.each_method (s.block_at block).device_node s.world in
      match_all block methods (in_world s w)
