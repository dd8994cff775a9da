-- ===== src/Programs/HelloWorld/Methods.antt =====
-- The methods of the service in each program, and what they do to its server.
use rxd.Base.{◌≡◌, ◌≢◌, refl, String, true, false, []}
use rxd.States.{State, init, idle, run, stop}
use rxd.Manager.{succeeds, panics}
use rxd.Programs.HelloWorld.Multi
use rxd.Programs.HelloWorld.Multi.{
  ServingMulti, shuts, Levels, multi_levels, rpc_levels, idle_multi, run_multi, init_rpc,
  stop_multi, stop_rpc,
}
use rxd.Programs.HelloWorld.{
  call, init_multi, HelloWorld, ends, Call, init_hello, idle_hello, stop_hello, Serving, breaks,
  cancelled, times_out, run_single, run_custom,
}

-- The methods of a service, each with the events of its call.
abbrev pub Methods : Type 0 → Type 0
Methods E = State → E → HelloWorld → Call

-- Init makes the server, Idle and Run keep it, Stop drops it, and a Run that finds it does not panic.
pub record Serves {E : Type 0} (method : Methods E) : Type 0 where
  pub makes :
      (e : E) (s : HelloWorld)
      → s.has_server ≡ false
      → ((method init e s).finish ≡ ends succeeds) × ((method init e s).service.has_server ≡ true)
  pub idles :
      (e : E) (s : HelloWorld) → s.has_server ≡ true → (method idle e s).service.has_server ≡ true
  pub serves :
      (e : E) (s : HelloWorld)
      → s.has_server ≡ true
      → ((v : String) → (method run e s).finish ≢ ends (panics v))
        × ((method run e s).service.has_server ≡ true)
  pub drops : (e : E) (s : HelloWorld) → (method stop e s).service.has_server ≡ false

-- The methods of the two single-service programs, and of the two with several services.
abbrev pub single : Methods Serving
single init e s = init_hello s
single idle e s = idle_hello s
single run e s = run_single s e
single stop e s = stop_hello s
single _ e s = call succeeds s []

abbrev pub custom : Methods Serving
custom init e s = init_hello s
custom idle e s = idle_hello s
custom run e s = run_custom s e
custom stop e s = stop_hello s
custom _ e s = call succeeds s []

abbrev pub multi : Methods ServingMulti
multi init e s = init_multi s
multi idle e s = idle_multi multi_levels s
multi run e s = run_multi multi_levels s e
multi stop e s = stop_multi s
multi _ e s = call succeeds s []

abbrev pub rpc : Methods ServingMulti
rpc init e s = init_rpc s
rpc idle e s = idle_multi rpc_levels s
rpc run e s = run_multi rpc_levels s e
rpc stop e s = stop_rpc s
rpc _ e s = call succeeds s []

run_single-kept :
    (e : Serving) (s : HelloWorld)
    → s.has_server ≡ true
    → ((v : String) → (run_single s e).finish ≢ ends (panics v))
      × ((run_single s e).service.has_server ≡ true)
unfolding run_single
run_single-kept (breaks e) s h = rw h ((λ v q. cc), refl)
run_single-kept (cancelled shut) s h = rw h ((λ v q. cc), refl)
run_single-kept (times_out shut) s h = rw h ((λ v q. cc), refl)

run_custom-kept :
    (e : Serving) (s : HelloWorld)
    → s.has_server ≡ true
    → ((v : String) → (run_custom s e).finish ≢ ends (panics v))
      × ((run_custom s e).service.has_server ≡ true)
unfolding run_custom
run_custom-kept (breaks e) s h = rw h ((λ v q. cc), refl)
run_custom-kept (cancelled shut) s h = rw h ((λ v q. cc), refl)
run_custom-kept (times_out shut) s h = rw h ((λ v q. cc), refl)

run_multi-kept :
    (l : Levels) (e : ServingMulti) (s : HelloWorld)
    → s.has_server ≡ true
    → ((v : String) → (run_multi l s e).finish ≢ ends (panics v))
      × ((run_multi l s e).service.has_server ≡ true)
unfolding run_multi
run_multi-kept l (Multi.breaks e) s h = rw h ((λ v q. cc), refl)
run_multi-kept l (shuts shut) s h = rw h ((λ v q. cc), refl)

pub single-Serves : Serves single
unfolding init_hello idle_hello stop_hello
single-Serves = record {
  makes = λ e s h. rw h (refl, refl);
  idles = λ e s h. h;
  serves = run_single-kept;
  drops = λ e s. refl;
}

pub custom-Serves : Serves custom
unfolding init_hello idle_hello stop_hello
custom-Serves = record {
  makes = λ e s h. rw h (refl, refl);
  idles = λ e s h. h;
  serves = run_custom-kept;
  drops = λ e s. refl;
}

pub multi-Serves : Serves multi
unfolding init_multi idle_multi stop_multi
multi-Serves = record {
  makes = λ e s h. (refl, refl);
  idles = λ e s h. h;
  serves = run_multi-kept multi_levels;
  drops = λ e s. refl;
}

pub rpc-Serves : Serves rpc
unfolding init_rpc idle_multi stop_rpc
rpc-Serves = record {
  makes = λ e s h. (refl, refl);
  idles = λ e s h. h;
  serves = run_multi-kept rpc_levels;
  drops = λ e s. refl;
}
