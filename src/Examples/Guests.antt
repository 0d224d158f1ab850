-- ===== src/Examples/Guests.antt =====
-- Guests that call the host functions of wasm_runtime.rs, and deliveries to them.
use jericho_os.Base.{
  ℕ, ◌<◌, ◌≡◌, refl, ◌↔◌, Option, none, some, List, [], ◌∷◌, String, length, replicate, arith,
}
use jericho_os.Capability.Rights.{read_write}
use jericho_os.Capability.Token.{endpoint}
use jericho_os.Wasm.Guest.{
  Broker, Caller, Host, returns, panics, slice, find_capability, find_in, minus,
}
use jericho_os.Wasm.Calls.{◌then◌, sys_print, subscribe, publish, ipc_send, enqueue_all}
use jericho_os.Wasm.Run.{Run, returned, halted, kernel_panics}
use jericho_os.Wasm.Deliver.{Runtime, Value, i32, deliver_loop, take_for, count_for}
use jericho_os.Wasm.Bounds.{Wraps, reads-panic}
use jericho_os.Wasm.Publish.{published_by, publish-published_by}
use jericho_os.Wasm.Sending.{SendEnds, ipc_send-SendEnds}
use jericho_os.Wasm.Limits.{Within, publishes, HostCall-Within}
use jericho_os.Wasm.Delivery.{Leaves, deliver_loop-Within, deliver_loop-ends}
use jericho_os.Wasm.Endless.{echo, echo_broker, echo_endless}

-- A sensor with a memory of four bytes, that may send to endpoint 9.
abbrev pub sensor : Caller
sensor = record {
  context = record {
    capabilities =
        record { id = 1; resource_type = endpoint; resource_id = 9; rights = read_write } ∷ [];
  };
  memory = some (20 ∷ 21 ∷ 22 ∷ 23 ∷ []);
}

abbrev two_subscribers : Broker
two_subscribers = record { queue = []; subscribers = 9 ∷ 5 ∷ [] }

-- The address -1 with the length 1 stops the kernel.
print_at_minus_one : sys_print sensor (minus 1) 1 ≡ panics
unfolding sys_print slice ◌then◌
print_at_minus_one = refl

send_two_bytes :
    ipc_send sensor two_subscribers 9 1 2
    ≡ returns (
      record two_subscribers { queue = record { dest_client_id = 9; message = 21 ∷ 22 ∷ [] } ∷ [] },
      0,
    )
unfolding ipc_send find_capability find_in slice ◌then◌
send_two_bytes = refl

reads-panic_example :
    ((sys_print sensor (minus 1) 1 ≡ panics) ↔ Wraps sensor.memory (minus 1) 1)
    × ((subscribe sensor two_subscribers 3 (minus 1) 1 ≡ panics) ↔ Wraps sensor.memory (minus 1) 1)
reads-panic_example =
    reads-panic sensor two_subscribers 3 (minus 1) 1 (omega arith) (omega arith) (omega arith)

publish-published_by_example :
    publish sensor two_subscribers 0 1 1 2 ≡ returns (published_by sensor two_subscribers 0 1 1 2)
publish-published_by_example =
    publish-published_by sensor two_subscribers 0 1 1 2 (omega arith) (omega arith)

ipc_send-SendEnds_example :
    SendEnds sensor two_subscribers 9 1 2 (ipc_send sensor two_subscribers 9 1 2)
ipc_send-SendEnds_example =
    ipc_send-SendEnds sensor two_subscribers 9 1 2 (omega arith) (omega arith)

abbrev pub published_two : Broker
published_two = record two_subscribers {
  queue =
      record { dest_client_id = 9; message = 21 ∷ [] }
      ∷ record { dest_client_id = 5; message = 21 ∷ [] }
      ∷ [];
}

publishes_two : publish sensor two_subscribers 0 1 1 1 ≡ returns (published_two, 2)
unfolding publish slice enqueue_all ◌then◌
publishes_two = refl

HostCall-Within_example : Within 64 published_two
HostCall-Within_example =
    HostCall-Within 64 sensor two_subscribers published_two (omega arith) (omega arith)
      (publishes 0 1 1 1 2 (omega arith) publishes_two)
      (record { shallow = omega arith; short = tt })

-- A guest that answers each call with this number, and calls no host function.
abbrev pub silent : (M : Type 0) → ℕ → Runtime M String
silent M number = record {
  get_func = λ m name. some name;
  run = λ m b func args. returned (m, b, some (i32 number ∷ []));
  memory = λ m. sensor.memory;
  write = λ m bytes. m;
}

-- It takes every message at address 1.
abbrev quiet : Runtime (Unit {0}) String
quiet = silent Unit 1

one_pending : count_for 9 published_two.queue < 2
unfolding count_for
one_pending = omega arith

deliver_loop-ends_example :
    (m' : Unit {0}) × (b' : Broker) × (count : ℕ) × (deliver_loop quiet 2 tt published_two 9 0
      ≡ some (returned (m', b', count)))
    × Leaves 9 0 published_two b' count
deliver_loop-ends_example =
    deliver_loop-ends quiet (λ m b name func args known e. refl) 2 tt published_two 9 0 one_pending

-- The queue after the delivery to client 9.
abbrev one_left : Broker
one_left = record two_subscribers { queue = record { dest_client_id = 5; message = 21 ∷ [] } ∷ [] }

delivers_one : deliver_loop quiet 2 tt published_two 9 0 ≡ some (returned (tt, one_left, 1))
unfolding deliver_loop take_for
delivers_one = refl

pub published_two-Within : Within 65 published_two
published_two-Within = record { shallow = omega arith; short = (omega arith, (omega arith, tt)) }

deliver_loop-Within_example : Within 65 one_left
deliver_loop-Within_example =
    deliver_loop-Within quiet (λ m b name func args known e w. w) 2 tt published_two 9 0 tt one_left
      1 published_two-Within delivers_one

echo_endless_example : deliver_loop echo 1000 tt (echo_broker 4) 4 0 ≡ none
echo_endless_example = echo_endless 4 1000 0

-- What a function of a guest comes to that calls a host function, and then gives these results, or traps.
abbrev pub and_gives :
    {M : Type 0}
    → M
    → Option (List Value)
    → Host (Broker × ℕ)
    → Run (M × Broker × Option (List Value))
and_gives m results (returns (b, answer)) = returned (m, b, results)
and_gives m results panics = halted kernel_panics

-- A guest that sends itself a message when it is asked for a buffer, and then traps.
abbrev trapping : Runtime (Unit {0}) String
trapping = record {
  get_func = λ m name. some name;
  run = λ m b func args. and_gives m none (ipc_send sensor b 9 0 1);
  memory = λ m. sensor.memory;
  write = λ m bytes. m;
}

-- A guest that prints at the address -1 when it is asked for a buffer: the delivery stops the kernel.
abbrev printed : {A : Type 0} → A → Host (Option (List ℕ)) → Run A
printed a (returns bytes) = returned a
printed a panics = halted kernel_panics

abbrev crashing : Runtime (Unit {0}) String
crashing = record {
  get_func = λ m name. some name;
  run = λ m b func args. printed (m, b, some (i32 1 ∷ [])) (sys_print sensor (minus 1) 1);
  memory = λ m. sensor.memory;
  write = λ m bytes. m;
}

stops_kernel : deliver_loop crashing 2 tt published_two 9 0 ≡ some (halted kernel_panics)
unfolding deliver_loop take_for sys_print slice ◌then◌
stops_kernel = refl

abbrev full : Broker
full = record {
  queue = replicate 64 (record { dest_client_id = 9; message = 20 ∷ [] });
  subscribers = [];
}

-- A full queue of 64 messages grows to 65 by a delivery.
abbrev depth_after : Option (Run (Unit {0} × Broker × ℕ)) → ℕ
depth_after none = 0
depth_after (some (halted h)) = 0
depth_after (some (returned (m, b, count))) = length b.queue

grows_past_limit : depth_after (deliver_loop trapping 2 tt full 9 0) ≡ 65
unfolding deliver_loop take_for ipc_send find_capability find_in slice ◌then◌
grows_past_limit = refl
