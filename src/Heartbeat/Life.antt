-- ===== src/Heartbeat/Life.antt =====
-- From a worker's registration to its goodbye, as the entry's table of nodes sees it.
use updater_service.Base.{
  ap, ◌+◌, ◌≡◌, ℕ, zero, suc, inl, inr, some, List, [], ◌∷◌, ◌++◌, Outcome, served, refused, lost,
  arith, All, get_elem?, refl,
}
use updater_service.Node.Repository.{Nodes}
use updater_service.Node.Registry.{step}
use updater_service.Entry.Nodes.{Settings, lease_or_default}
use updater_service.Heartbeat.{
  HeartbeatManager, Published, registered, beat, left, publish, registration, register, heartbeat,
  goodbye, tick_all, run,
}
use updater_service.Heartbeat.Received.{
  Delivery, Arrival, handled, elsewhere, receive, receive_all, IsReadable, IsMine, IsKind, IsOwn,
  IsOver, IsBack, sign, farewell,
}
use updater_service.Heartbeat.Rows.{
  step-IsMine, own-IsMine, registered-IsMine, left-IsOver, beat-IsBack,
}

-- The messages that are handled are among those sent, in any order, once, several times or never, and
-- no other incarnation of the node registers.
abbrev pub IsFrom : HeartbeatManager → List Published → List Arrival → Type 0
IsFrom h sent [] = Unit
IsFrom h sent (handled message d ∷ arrivals) =
    ((n : ℕ) × (get_elem? sent n ≡ some message)) × IsFrom h sent arrivals
IsFrom h sent (elsewhere event ∷ arrivals) = IsKind h event × IsFrom h sent arrivals

module _ (h : HeartbeatManager) where
  IsOwn-publish :
      (o : Outcome) (message : Published) (rest : List Published)
      → IsOwn h message
      → All (IsOwn h) rest
      → All (IsOwn h) (publish o message ++ rest)
  IsOwn-publish served message rest own all = (own, all)
  IsOwn-publish (refused e) message rest own all = all
  IsOwn-publish (lost e) message rest own all = (own, all)

  IsOwn-tick_all :
      (ticks : List (Outcome × Outcome)) (bye : Outcome) → All (IsOwn h) (tick_all h ticks bye)
  unfolding tick_all goodbye register heartbeat
  IsOwn-tick_all [] served = (inr (inr refl), tt)
  IsOwn-tick_all [] (refused e) = tt
  IsOwn-tick_all [] (lost e) = (inr (inr refl), tt)
  IsOwn-tick_all ((again, alive) ∷ ticks) bye =
      IsOwn-publish again (registered (registration h)) _ (inl refl)
        (IsOwn-publish alive (beat (sign h)) _ (inr (inl refl)) (IsOwn-tick_all ticks bye))

  IsOwn-run :
      (first : Outcome) (ticks : List (Outcome × Outcome)) (bye : Outcome)
      → All (IsOwn h) (run h first ticks bye)
  unfolding run register
  IsOwn-run first ticks bye =
      IsOwn-publish first (registered (registration h)) _ (inl refl) (IsOwn-tick_all ticks bye)

  publish-append :
      (o : Outcome) (message : Published) (rest sent last : List Published)
      → rest ≡ sent ++ last
      → publish o message ++ rest ≡ (publish o message ++ sent) ++ last
  publish-append served message rest sent last e = ap (λ l. message ∷ l) e
  publish-append (refused x) message rest sent last e = e
  publish-append (lost x) message rest sent last e = ap (λ l. message ∷ l) e

  tick_all_ends :
      (ticks : List (Outcome × Outcome))
      → (sent : List Published) × (tick_all h ticks served ≡ sent ++ left (farewell h) ∷ [])
  unfolding tick_all goodbye register heartbeat
  tick_all_ends [] = ([], refl)
  tick_all_ends ((again, alive) ∷ ticks) =
      let (sent, e) = tick_all_ends ticks in
      let last = left (farewell h) ∷ [] in
      (
        publish again (registered (registration h)) ++ (publish alive (beat (sign h)) ++ sent),
        publish-append again (registered (registration h)) _ _ last
            (publish-append alive (beat (sign h)) _ sent last e),
      )

  run_ends :
      (ticks : List (Outcome × Outcome))
      → (sent : List Published) × (run h served ticks served
          ≡ registered (registration h) ∷ (sent ++ left (farewell h) ∷ []))
  unfolding run register
  run_ends ticks =
      let (sent, e) = tick_all_ends ticks in (sent, ap (λ l. registered (registration h) ∷ l) e)

  one_of :
      (sent : List Published) (n : ℕ) (message : Published)
      → All (IsOwn h) sent
      → get_elem? sent n ≡ some message
      → IsOwn h message
  one_of [] n message all e = absurd (ground (arith, e))
  one_of (m ∷ sent) zero message all e = let same : message ≡ m = ground (arith, e) in rw same all.0
  one_of (m ∷ sent) (suc n) message all e = one_of sent n message all.1 e

  module _ (settings : Settings) (readable : IsReadable settings h) (sent : List Published)
      (own : All (IsOwn h) sent) where
    -- What is handled after `arrivals` finds the row of the worker.
    receive_all-IsMine :
        (Goal : Nodes → Type 0) (arrivals last : List Arrival) (rows : Nodes)
        → IsFrom h sent arrivals
        → IsMine h rows
        → ((t : Nodes) → IsMine h t → Goal (receive_all settings last t))
        → Goal (receive_all settings (arrivals ++ last) rows)
    unfolding receive_all
    receive_all-IsMine Goal [] last rows from mine goal = goal rows mine
    receive_all-IsMine Goal (handled message d ∷ arrivals) last rows from mine goal =
        let mine' =
          own-IsMine settings h readable message d rows (one_of sent from.0.0 message own from.0.1)
            mine in
        receive_all-IsMine Goal arrivals last (receive settings message d rows) from.1 mine' goal
    receive_all-IsMine Goal (elsewhere event ∷ arrivals) last rows from mine goal =
        receive_all-IsMine Goal arrivals last (step settings.codec event rows) from.1
          (step-IsMine settings h readable event rows from.0 mine) goal

-- A worker's run whose first registration and whose goodbye are published starts with the one and ends
-- with the other. Let the entry read what the worker writes, and let no other incarnation of the node
-- register. When the entry has served a registration, then whichever of the messages of the run it
-- handles next, in whatever order and among whatever else happens to the table: once it serves a
-- goodbye, the node is offline or draining, with a lease that ended when the goodbye was handled. When
-- it serves a heartbeat of the worker only after that, the node is online or draining again, with a new
-- lease.
pub run-IsOver :
    (settings : Settings) (h : HeartbeatManager) (first : Outcome)
    (ticks : List (Outcome × Outcome)) (bye : Outcome) (arrivals : List Arrival)
    (registering leaving late : Delivery) (rows : Nodes)
    → IsReadable settings h
    → IsFrom h (run h first ticks bye) arrivals
    → registering.outcome ≡ served
    → leaving.outcome ≡ served
    → late.outcome ≡ served
    → ((sent : List Published) × (run h served ticks served
          ≡ registered (registration h) ∷ (sent ++ left (farewell h) ∷ [])))
      × IsOver h leaving.now (
          receive_all settings
            (handled (registered (registration h)) registering
              ∷ (arrivals ++ handled (left (farewell h)) leaving ∷ []))
            rows)
      × IsBack h (late.here + lease_or_default settings) (
          receive_all settings
            (handled (registered (registration h)) registering
              ∷ (arrivals
                  ++ handled (left (farewell h)) leaving ∷ handled (beat (sign h)) late ∷ []))
            rows)
unfolding receive_all
run-IsOver settings h first ticks bye arrivals registering leaving late rows readable from begun
      gone back =
    let sent = run h first ticks bye in
    let own = IsOwn-run h first ticks bye in
    let start = receive settings (registered (registration h)) registering rows in
    let mine = registered-IsMine settings h readable registering rows begun in
    (
      run_ends h ticks,
      receive_all-IsMine h settings readable sent own (IsOver h leaving.now) arrivals
          (handled (left (farewell h)) leaving ∷ []) start from mine
          (λ t m. left-IsOver settings h readable leaving t gone m),
      receive_all-IsMine h settings readable sent own
          (IsBack h (late.here + lease_or_default settings)) arrivals
          (handled (left (farewell h)) leaving ∷ handled (beat (sign h)) late ∷ []) start from mine
          (λ t m.
            beat-IsBack settings h readable late (receive settings (left (farewell h)) leaving t)
              back
              (own-IsMine settings h readable (left (farewell h)) leaving t (inr (inr refl)) m)),
    )
