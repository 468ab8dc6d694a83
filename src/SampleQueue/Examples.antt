-- ===== src/SampleQueue/Examples.antt =====
-- Runs of a small sample queue: two slots of two samples of one byte.
use airspyhf_wsprd.Common.{
  ℕ, ◌*◌, ◌^◌, ◌≤◌, ◌≡◌, refl, true, false, some, List, [], ◌∷◌, arith, read_at, write_at,
}
use airspyhf_wsprd.SampleQueue.{
  size_max, saturating_add, SampleQueue, System, zeroed, set_up, allocate, refused_sizes,
  point_slots, init, push_locked, push_on, count_drops, store, try_peek, free_oldest, release,
}
use airspyhf_wsprd.SampleQueue.Invariant.{IsValid, fresh, init-IsValid}
use airspyhf_wsprd.SampleQueue.Fifo
use airspyhf_wsprd.SampleQueue.Fifo.{Call, Reply, pushed, peeked, released, done, Block}
use airspyhf_wsprd.SampleQueue.Refine.{contents}
use airspyhf_wsprd.SampleQueue.Run.{step, run, step-IsValid, run_refines}

abbrev buffer : List ℕ
buffer = 0 ∷ 0 ∷ 0 ∷ 0 ∷ []

abbrev able : System
able = record {
  slots_found = true;
  storage_found = some buffer;
  mutex_made = true;
  condition_made = true;
}

abbrev small : SampleQueue
small = fresh buffer 1 2 2

init-small : init able (some zeroed) 1 2 2 ≡ (true, some small)
unfolding init refused_sizes allocate set_up point_slots
init-small = refl

init_overflow : init able (some zeroed) (2 ^ 40) (2 ^ 20) (2 ^ 10) ≡ (false, some zeroed)
unfolding init refused_sizes
init_overflow = refl

init-IsValid_example :
    IsValid small
    × (2 * (1 * 2) ≤ size_max)
    × (small.count ≡ 0)
    × (small.stopping ≡ false)
    × (small.element_size ≡ 1)
    × (small.block_capacity ≡ 2)
    × (small.slot_count ≡ 2)
init-IsValid_example = init-IsValid able (some zeroed) 1 2 2 (λ bytes e. ground arith) init-small

-- The third block finds no room and the fifth is taken after one is freed.
abbrev session : List Call
session =
    Call.push (some (1 ∷ 2 ∷ [])) 2 0
    ∷ Call.push (some (3 ∷ [])) 1 5
    ∷ Call.push (some (4 ∷ 5 ∷ [])) 2 7
    ∷ Call.peek
    ∷ Call.release
    ∷ Call.push (some (6 ∷ 7 ∷ [])) 2 1
    ∷ Call.release
    ∷ Call.peek
    ∷ []

run-session :
    run small session
    ≡ pushed true
      ∷ pushed true
      ∷ pushed false
      ∷ peeked (
          some (record {
            bytes = 1 ∷ 2 ∷ [];
            sample_count = 2;
            device_dropped = 0;
            queue_dropped = 0;
          }))
      ∷ released true
      ∷ pushed true
      ∷ released true
      ∷ peeked (
          some (record {
            bytes = 6 ∷ 7 ∷ [];
            sample_count = 2;
            device_dropped = 8;
            queue_dropped = 2;
          }))
      ∷ []
unfolding run step point_slots push_on push_locked store count_drops saturating_add try_peek release
    free_oldest read_at write_at
run-session = refl

step-IsValid_example : IsValid (step small (Call.push (some (1 ∷ 2 ∷ [])) 2 0)).1
step-IsValid_example = step-IsValid small (Call.push (some (1 ∷ 2 ∷ [])) 2 0) init-IsValid_example.0

run_refines_example : run small session ≡ Fifo.run 1 2 2 (contents small) session
run_refines_example = run_refines small session init-IsValid_example.0 (omega arith)
