-- ===== src/Examples/Loads.antt =====
-- Loading a guest of src/wasm_runtime.rs, with a linker that keeps its names in a function.
use jericho_os.Base.{
  ℕ, ◌≡◌, refl, sym, subst, length, arith, ◌&&◌, Option, none, some, List, [], ◌∷◌, String,
  if◌then◌else◌,
}
use text.Mathlib.Text.{◌==◌ as str_eq}
use jericho_os.Wasm.Guest.{Broker, slice}
use jericho_os.Wasm.Run.{Run, returned, Yields}
use jericho_os.Wasm.Calls.{publish, enqueue_all, ◌then◌}
use jericho_os.Wasm.Publish.{publish-published_by}
use jericho_os.Wasm.Deliver.{Runtime, i32, deliver_loop, take_for}
use jericho_os.Wasm.Limits.{publishes}
use jericho_os.Wasm.Hosted.{IsHosted, HostCalls, no_call, and_call}
use jericho_os.Wasm.Demo.{Result, completed, demo_04_mqtt}
use jericho_os.Wasm.DemoEnds.{Ends, demo_04_mqtt-Ends}
use jericho_os.Examples.Guests.{sensor, published_two, published_two-Within, silent, and_gives}
use jericho_os.Wasm.Load.{HostFunction, Linker, Interpreter, WasmModule, from_bytes}
use jericho_os.Wasm.Isolation.{IsLinker, LoadEnds, from_bytes-LoadEnds}

abbrev pub Names : Type 0
Names = String → String → Option HostFunction

abbrev wrap : Names → String → String → HostFunction → Option HostFunction → Option Names
wrap t m n f none = some (λ m' n'. if str_eq m' m && str_eq n' n then some f else t m' n')
wrap t m n f (some g) = none

abbrev pub names : Linker
names = record {
  Table = Names;
  new = λ m n. none;
  func_wrap = λ t m n f. wrap t m n f (t m n);
  get = λ t m n. t m n;
}

names-IsLinker : IsLinker names
names-IsLinker = record {
  get-new = λ m n. refl;
  wraps = λ t m n f free. (
    (λ m' n'. if str_eq m' m && str_eq n' n then some f else t m' n'),
    rw free refl,
    λ m' n'. refl,
  );
}

-- An interpreter that loads everything but an empty file.
abbrev parse : List ℕ → Option (Unit {0})
parse [] = none
parse (b ∷ bs) = some tt

abbrev loads : Interpreter names
loads = record {
  Module = Unit;
  Instance = Unit;
  parse = parse;
  instantiate = λ t context m. some tt;
  start = λ i context b. returned (b, some tt);
}

abbrev empty_queue : Broker
empty_queue = record { queue = []; subscribers = [] }

from_bytes-LoadEnds_example :
    LoadEnds names loads
      (0 ∷ 97 ∷ 115 ∷ 109 ∷ [])
      empty_queue
      (from_bytes names loads (0 ∷ 97 ∷ 115 ∷ 109 ∷ []) empty_queue)
from_bytes-LoadEnds_example =
    from_bytes-LoadEnds names loads (0 ∷ 97 ∷ 115 ∷ 109 ∷ []) empty_queue names-IsLinker

-- A guest that publishes the byte 21 whenever it is called, and answers 0.
abbrev publisher : Runtime (WasmModule (Unit {0})) String
publisher = record {
  get_func = λ m name. some name;
  run = λ m b func args. and_gives m (some (i32 0 ∷ [])) (publish sensor b 0 1 1 1);
  memory = λ m. sensor.memory;
  write = λ m bytes. m;
}

publisher-IsHosted : IsHosted publisher
publisher-IsHosted m b func args =
    let e = publish-published_by sensor b 0 1 1 1 (omega arith) (omega arith) in
    subst (λ r. Yields ⊥ (λ x. HostCalls b x.1) (and_gives m (some (i32 0 ∷ [])) r)) (sym e)
      (and_call sensor no_call (omega arith) (publishes 0 1 1 1 _ (omega arith) e))

-- The demonstration, with guests of which only the publisher calls a host function, and an interpreter that
-- loads them.
abbrev demonstration : Option (Run (Result (WasmModule (Unit {0})) (WasmModule (Unit {0}))))
demonstration =
    demo_04_mqtt names loads loads loads (silent (WasmModule Unit) 1) publisher
      (silent (WasmModule Unit) 0) (1 ∷ []) (2 ∷ []) (3 ∷ []) 66 published_two

demo_04_mqtt-Ends_example : Ends demonstration
demo_04_mqtt-Ends_example =
    demo_04_mqtt-Ends names loads loads loads (silent (WasmModule Unit) 1) publisher
      (silent (WasmModule Unit) 0) (1 ∷ []) (2 ∷ []) (3 ∷ []) published_two names-IsLinker
      (λ m b name func args known e. refl) (λ m b func args. no_call) publisher-IsHosted
      (λ m b func args. no_call) (λ i context b. no_call) (λ i context b. no_call)
      (λ i context b. no_call) published_two-Within

-- All five rounds take place.
abbrev rounds_of : Option (Run (Result (WasmModule (Unit {0})) (WasmModule (Unit {0})))) → ℕ
rounds_of (some (returned (completed s p b deliveries))) = length deliveries
rounds_of other = 0

all_rounds : rounds_of demonstration ≡ 5
unfolding demo_04_mqtt deliver_loop take_for publish enqueue_all slice ◌then◌
all_rounds = refl
