-- ===== src/Examples/Admitting.antt =====
-- Two tenants at a route under a controller of one bucket, and three calls at a bulkhead of one slot.
use dmpf.Prelude.{String, string_eq, List, [], ◌∷◌, some, ◌≡◌, refl}
use dmpf.Prelude.Int.{pos}
use dmpf.Transport.Admission.{Limit, Controller, new_controller, valid_limits, valid_limit}
use dmpf.Transport.Admission.Slots.{Move, asks, gives_back, run, Inv}
use dmpf.Transport.Admission.Slots.Runs.{run_controller-Inv}
use dmpf.Resilience.Bulkhead.{BulkheadPolicy, new_bulkhead}
use dmpf.Resilience.Bulkhead.Pool as Pool
use dmpf.Examples.Floats.{milli}

abbrev limits : List (String × Limit milli)
limits = ("/orders", record { per_second = some 1000; burst = pos 2; concurrency = pos 1 }) ∷ []

abbrev controller : Controller milli
controller = record { limits = limits; max_keys = pos 1; lru = []; issued = 0 }

abbrev requests : List (Move milli)
requests =
    asks "/orders" "acme" (pos 10)
    ∷ asks "/orders" "rival" (pos 20)
    ∷ gives_back 0
    ∷ gives_back 0
    ∷ asks "/orders" "rival" (pos 30)
    ∷ asks "/other" "acme" (pos 40)
    ∷ []

created : new_controller milli limits (pos 1) ≡ some controller
unfolding new_controller valid_limits valid_limit
created = refl

run_controller-Inv_example :
    Inv milli limits (pos 1) (run milli (record { controller = controller; slots = [] }) requests)
run_controller-Inv_example = run_controller-Inv milli limits (pos 1) controller requests created

abbrev pooled : BulkheadPolicy
pooled = record { pool = pos 1; queue = pos 0 }

abbrev crowd : List Pool.Move
crowd =
    Pool.arrives
    ∷ Pool.arrives
    ∷ Pool.arrives
    ∷ Pool.advances 1
    ∷ Pool.advances 0
    ∷ Pool.gives_up 0
    ∷ Pool.advances 0
    ∷ Pool.advances 0
    ∷ []

run_bulkhead-Inv_example :
    let b = new_bulkhead pooled in
    Pool.Inv b.pool b.queue (Pool.run (record { bulkhead = b; calls = [] }) crowd)
run_bulkhead-Inv_example = Pool.run_bulkhead-Inv pooled crowd
