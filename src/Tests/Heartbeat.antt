-- ===== src/Tests/Heartbeat.antt =====
-- internal/heartbeat: a worker that registers, ticks twice and leaves.
use updater_service.Base.{
  ◌≡◌, ne_of_beq, string_dec, ℕ, List, [], ◌∷◌, ok, refl, served, lost, refused, canceled, pos,
  Outcome, ◌++◌,
}
use updater_service.Entry.Nodes.{Settings}
use updater_service.Heartbeat.{
  Published, registered, beat, left, registration, HeartbeatManager, run, tick_all, register,
  heartbeat, goodbye,
}
use updater_service.Heartbeat.Received.{
  Delivery, Arrival, handled, elsewhere, receive_all, IsReadable, IsOver, IsBack, sign, farewell,
}
use updater_service.Node.Registry.{expiring}
use updater_service.Heartbeat.Life.{run-IsOver}

abbrev settings : Settings
settings = record {
  codec = record { encode = λ l. ok "[]"; decode = λ s. ok [] };
  trim = λ s. s;
  parse_time = λ s. ok 7;
  lease = pos 15;
  default_lease = 15;
}

abbrev worker : HeartbeatManager
worker = record {
  node_id = "node-1";
  instance_id = "inc-1";
  address = "10.0.0.1";
  version = "1.0";
  capabilities = [];
  started_at = "2026-09-22T00:00:00Z";
  interval = pos 5;
  lease = pos 15;
}

worker-IsReadable : IsReadable settings worker
unfolding string_dec
worker-IsReadable = record {
  has_id = ne_of_beq "node-1" "" refl;
  has_instance = ne_of_beq "inc-1" "" refl;
  trimmed_id = refl;
  trimmed_instance = refl;
  json = "[]";
  encoded = refl;
  started = 7;
  parsed = refl;
}

abbrev delivery : ℕ → Delivery
delivery time = record { outcome = served; here = time; now = time }

-- The second tick's registration is not sent.
abbrev ticks : List (Outcome × Outcome)
ticks = (served, lost canceled) ∷ (refused canceled, served) ∷ []

-- The second heartbeat is handled before the first, and the monitor runs between them.
abbrev arrivals : List Arrival
arrivals =
    handled (beat (sign worker)) (delivery 15)
    ∷ elsewhere (expiring served 40)
    ∷ handled (beat (sign worker)) (delivery 41)
    ∷ handled (registered (registration worker)) (delivery 42)
    ∷ []

run-IsOver_example :
    ((sent : List Published) × (run worker served ticks served
        ≡ registered (registration worker) ∷ (sent ++ left (farewell worker) ∷ [])))
    × IsOver worker 50 (
        receive_all settings
          (handled (registered (registration worker)) (delivery 10)
            ∷ (arrivals ++ handled (left (farewell worker)) (delivery 50) ∷ []))
          [])
    × IsBack worker 66 (
        receive_all settings
          (handled (registered (registration worker)) (delivery 10)
            ∷ (arrivals
                ++ handled (left (farewell worker)) (delivery 50)
                  ∷ handled (beat (sign worker)) (delivery 51)
                  ∷ []))
          [])
unfolding run tick_all register heartbeat goodbye
run-IsOver_example =
    run-IsOver settings worker served ticks served arrivals (delivery 10) (delivery 50)
      (delivery 51) [] worker-IsReadable ((3, refl), (tt, ((2, refl), ((1, refl), tt)))) refl refl
      refl
