-- ===== src/Dataplane/Consumer.antt =====
-- The loops of the consumer threads: `broker_dp_data_client` of broker/route_broker_dp_data.c and
-- `broker_consumer` of broker/route_broker_kernel.c. What the threads meet is a sequence of
-- events; a step takes the thread from one place of its loop to the next.
use vyatta_route_broker.Base.{
  ℕ, ◌+◌, ◌≡◌, ◌∙◌, refl, ap, sym, Bool, true, false, List, [], ◌∷◌, ◌++◌, Option, none, some,
  if◌then◌else◌,
}
use mathlib.Core.List.{append_assoc, append-nil}
use vyatta_route_broker.Broker.{u64}

-- Where the thread of a dataplane is: at `route_broker_client_get_data`, at `try_sending` with an
-- object, at one of the checks for the order to stop, or behind `stop_client`, with the object
-- that it gave up, if it did.
pub data Phase (D : Type 0) : Type 0 where
  fetching : Phase D
  sending : D → Phase D
  checking : Phase D
  stopped : Option D → Phase D

-- `got` is what `route_broker_client_get_data` gives, `none` for NULL. `failed` is a call of the
-- publish callback that returns an error, with whether errno is EAGAIN and whether the order to
-- stop has come. `polled` is a check for that order.
pub data Event (D : Type 0) : Type 0 where
  got : Option D → Event D
  published : Event D
  failed : Bool → Bool → Event D
  polled : Bool → Event D

-- The objects taken from the broker, those that the callback published, and those freed, in order.
pub record DpData (D : Type 0) : Type 0 where
  pub phase : Phase D
  pub taken : List D
  pub sent : List D
  pub freed : List D
  pub errors : ℕ

-- The state of the thread of the kernel, which does not wait and does not stop.
pub record Kernel (D : Type 0) : Type 0 where
  pub seen : List D
  pub published_ok : List D
  pub released : List D
  pub errors : ℕ

-- The count of errors does not take in those of EAGAIN.
abbrev pub count_error : Bool → ℕ → ℕ
count_error true n = n
count_error false n = u64 (n + 1)

module _ {D : Type 0} where
  -- One event at the place where the thread is. What it does not wait for there it does not meet.
  dp_data_at : DpData D → Phase D → Event D → DpData D
  dp_data_at c fetching (got (some d)) = record c { phase = sending d; taken = c.taken ++ (d ∷ []) }
  dp_data_at c fetching (got none) = record c { phase = checking }
  dp_data_at c (sending d) published = record c {
    phase = checking;
    sent = c.sent ++ (d ∷ []);
    freed = c.freed ++ (d ∷ []);
  }
  dp_data_at c (sending d) (failed again true) = record c {
    phase = stopped (some d);
    freed = c.freed ++ (d ∷ []);
    errors = count_error again c.errors;
  }
  dp_data_at c (sending d) (failed again false) = record c { errors = count_error again c.errors }
  dp_data_at c checking (polled true) = record c { phase = stopped none }
  dp_data_at c checking (polled false) = record c { phase = fetching }
  dp_data_at c _ _ = c

  dp_data_step : DpData D → Event D → DpData D
  unfolding dp_data_at
  dp_data_step c e = dp_data_at c c.phase e

  -- The thread from a state, through a sequence of events.
  unfoldable pub broker_dp_data_client : DpData D → List (Event D) → DpData D
  unfolding dp_data_step
  broker_dp_data_client c [] = c
  broker_dp_data_client c (e ∷ es) = broker_dp_data_client (dp_data_step c e) es

  -- Behind `route_broker_client_create`.
  abbrev pub dp_data_start : DpData D
  dp_data_start = record { phase = fetching; taken = []; sent = []; freed = []; errors = 0 }

  -- The object in hand at a place, and the one that is taken but not published.
  abbrev pub in_hand : Phase D → List D
  in_hand (sending d) = d ∷ []
  in_hand _ = []

  abbrev pub unsent : Phase D → List D
  unsent (sending d) = d ∷ []
  unsent (stopped (some d)) = d ∷ []
  unsent _ = []

  record Handled (p : Phase D) (c : DpData D) : Type 0 where
    all_sent : c.taken ≡ c.sent ++ unsent p
    all_freed : c.taken ≡ c.freed ++ in_hand p

  one_more : (t s : List D) (d : D) → t ≡ s ++ [] → t ++ (d ∷ []) ≡ s ++ (d ∷ [])
  one_more t s d e = ap (λ l. l ++ (d ∷ [])) (e ∙ append-nil s)

  at-Handled :
      (c : DpData D) (p : Phase D) (e : Event D)
      → c.phase ≡ p
      → Handled p c
      → Handled (dp_data_at c p e).phase (dp_data_at c p e)
  unfolding dp_data_at
  at-Handled c fetching (got (some x)) i k = record {
    all_sent = one_more c.taken c.sent x k.all_sent;
    all_freed = one_more c.taken c.freed x k.all_freed;
  }
  at-Handled c fetching (got none) i k = record { all_sent = k.all_sent; all_freed = k.all_freed }
  at-Handled c (sending x) published i k = record {
    all_sent = k.all_sent ∙ sym (append-nil (c.sent ++ (x ∷ [])));
    all_freed = k.all_freed ∙ sym (append-nil (c.freed ++ (x ∷ [])));
  }
  at-Handled c (sending x) (failed again true) i k = record {
    all_sent = k.all_sent;
    all_freed = k.all_freed ∙ sym (append-nil (c.freed ++ (x ∷ [])));
  }
  at-Handled c (sending x) (failed again false) i k =
      rw i (record { all_sent = k.all_sent; all_freed = k.all_freed })
  at-Handled c checking (polled true) i k = record {
    all_sent = k.all_sent;
    all_freed = k.all_freed;
  }
  at-Handled c checking (polled false) i k = record {
    all_sent = k.all_sent;
    all_freed = k.all_freed;
  }
  at-Handled c p e i k = rw i (record { all_sent = k.all_sent; all_freed = k.all_freed })

  run-Handled :
      (es : List (Event D)) (c : DpData D)
      → Handled c.phase c
      → Handled (broker_dp_data_client c es).phase (broker_dp_data_client c es)
  unfolding broker_dp_data_client dp_data_step
  run-Handled [] c k = k
  run-Handled (e ∷ es) c k = run-Handled es (dp_data_step c e) (at-Handled c c.phase e refl k)

  -- At every point of its life the thread of a dataplane has published all the objects that it
  -- took from the broker, each once and in order, but for the one that it is still sending or
  -- that it gave up when it was told to stop; and it has freed all but the one in hand, each once.
  pub broker_dp_data_client-sent :
      (es : List (Event D))
      → let c = broker_dp_data_client dp_data_start es in
        (c.taken ≡ c.sent ++ unsent c.phase) × (c.taken ≡ c.freed ++ in_hand c.phase)
  broker_dp_data_client-sent es =
      let h = run-Handled es dp_data_start (record { all_sent = refl; all_freed = refl }) in
      (h.all_sent, h.all_freed)

  -- One round of the loop of the kernel's thread, with an object and whether publishing it fails.
  kernel_step : Kernel D → D → Bool → Kernel D
  kernel_step k d fails = record {
    seen = k.seen ++ (d ∷ []);
    published_ok = if fails then k.published_ok else k.published_ok ++ (d ∷ []);
    released = k.released ++ (d ∷ []);
    errors = if fails then u64 (k.errors + 1) else k.errors;
  }

  pub broker_consumer : Kernel D → List (D × Bool) → Kernel D
  unfolding kernel_step
  broker_consumer k [] = k
  broker_consumer k ((d, fails) ∷ rest) = broker_consumer (kernel_step k d fails) rest

  abbrev pub kernel_start : Kernel D
  kernel_start = record { seen = []; published_ok = []; released = []; errors = 0 }

  abbrev pub objects : List (D × Bool) → List D
  objects [] = []
  objects ((d, fails) ∷ rest) = d ∷ objects rest

  -- The objects that the callback takes.
  abbrev pub accepted : List (D × Bool) → List D
  accepted [] = []
  accepted ((d, fails) ∷ rest) = if fails then accepted rest else d ∷ accepted rest

  consumer_from :
      (k : Kernel D) (l : List (D × Bool))
      → ((broker_consumer k l).published_ok ≡ k.published_ok ++ accepted l)
        × ((broker_consumer k l).released ≡ k.released ++ objects l)
  unfolding broker_consumer kernel_step
  consumer_from k [] = (sym (append-nil k.published_ok), sym (append-nil k.released))
  consumer_from k ((d, true) ∷ rest) =
      let ih = consumer_from (kernel_step k d true) rest in
      (ih.0, ih.1 ∙ append_assoc k.released (d ∷ []) (objects rest))
  consumer_from k ((d, false) ∷ rest) =
      let ih = consumer_from (kernel_step k d false) rest in
      (
        ih.0 ∙ append_assoc k.published_ok (d ∷ []) (accepted rest),
        ih.1 ∙ append_assoc k.released (d ∷ []) (objects rest),
      )

  -- The thread of the kernel goes on behind an object whose publication fails: it publishes all
  -- the others, in order, and frees every object that it takes, once.
  pub broker_consumer-accepted :
      (l : List (D × Bool))
      → ((broker_consumer kernel_start l).published_ok ≡ accepted l)
        × ((broker_consumer kernel_start l).released ≡ objects l)
  broker_consumer-accepted l = consumer_from kernel_start l
