-- ===== src/Tests/Notify.antt =====
-- Concrete runs of source/notify.c.
use u_acpi.Base.{◌≡◌, refl, false, [], ◌∷◌, ok, err, out_of_memory, ◌==◌, if◌then◌else◌, arith}
use u_acpi.Host.{MemoryHost, MemoryLaws}
use u_acpi.Mutex.Native.{acquire_native}
use u_acpi.Notify.{
  NodeHost, NodeLaws, State, Handler, handler_container, install_notify_handler, notify_all,
}
use u_acpi.Notify.Laws.{notify_all-held, install_notify_handler-leaks}
use u_acpi.Tests.World.{World, all_free, locks, lock_laws, blocks_of_memory, memory_laws}

abbrev no_memory : MemoryHost World
no_memory = record { alloc = λ n w. (false, w); free = λ n w. w }

abbrev no_memory_laws : MemoryLaws no_memory (λ w j. w j)
no_memory_laws = record { alloc_held = λ n w j. refl; free_held = λ n w j. refl }

abbrev nodes : NodeHost World
nodes = record {
  acquire_object = λ node w. (ok, node, w);
  unref_object = λ obj w. w;
  get_object = λ node w. node;
  hold = λ node w. w;
  let_go = λ node w. w;
  schedule_work = λ node v w. (ok, w);
  wait_for_work = λ w. w;
}

abbrev node_laws : NodeLaws nodes (λ w j. w j)
node_laws = record {
  acquire_object_held = λ node w j. refl;
  unref_object_held = λ obj w j. refl;
  hold_held = λ node w j. refl;
  let_go_held = λ node w j. refl;
  schedule_work_held = λ node v w j. refl;
  wait_for_work_held = λ w j. refl;
}

abbrev old : Handler
old = record { callback = 11; user_context = 0 }

abbrev state : State World
state = record {
  world = all_free;
  init_level = 1;
  notify_mutex = 7;
  root_node = 1;
  root_object = 1;
  handlers = λ o. if o == 2 then old ∷ [] else [];
}

notify_all-held_example :
    lock_laws.held (notify_all locks blocks_of_memory nodes 2 128 state).1.world 7
    ≡ lock_laws.held state.world 7
notify_all-held_example =
    notify_all-held locks lock_laws blocks_of_memory memory_laws nodes node_laws 2 128 state 7

install_notify_handler-leaks_example :
    let r = install_notify_handler locks no_memory nodes state.root_node 12 0 state in
    (r.0 ≡ err out_of_memory)
    × (lock_laws.held state.world state.notify_mutex ≡ 0)
    × (lock_laws.held r.1.world state.notify_mutex ≡ 1)
unfolding acquire_native handler_container
install_notify_handler-leaks_example =
    install_notify_handler-leaks locks lock_laws no_memory no_memory_laws nodes node_laws 12 0 state
      (omega arith) (ground arith) (ground arith) (λ k w. refl)
